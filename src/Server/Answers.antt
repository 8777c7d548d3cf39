-- ===== src/Server/Answers.antt =====
-- What the tools of internal/server/server.go answer, ready or not.
use better_telegram_mcp.Base.{
  ◌≡◌, refl, Bool, true, false, Option, none, some, String, Bool-cases, inl, inr,
}
use better_telegram_mcp.Base.Text.{str_eq}
use better_telegram_mcp.Base.Dict
use better_telegram_mcp.Base.Result.{Result, ok, err}
use better_telegram_mcp.Value.{Map, string_key}
use better_telegram_mcp.Results.{GoError, err_result}
use better_telegram_mcp.Programs.{Program, run}
use better_telegram_mcp.Tools.Setup.{not_ready}
use better_telegram_mcp.Server.{Server, Backend}
use better_telegram_mcp.Server.Marking.{external, is_error, Marked, mark_external-Marked}
use better_telegram_mcp.Server.Calls.{absent_answer, connect_status, ready, answer_call}

not_ready-is_error : (b : Bool) → is_error (not_ready b) ≡ true
unfolding not_ready err_result Dict.lookup
not_ready-is_error true = refl
not_ready-is_error false = refl

absent_answer-is_error : (s : Server) → is_error (absent_answer s) ≡ true
unfolding absent_answer not_ready err_result Dict.lookup
absent_answer-is_error s = elim (Bool-cases (str_eq (connect_status s) "")) [
  | inl b ↦ rw b (not_ready-is_error s.configured)
  | inr b ↦ rw b refl
]

-- The server has no backend, or one that is not signed in.
abbrev pub is_unready : Server → Bool
is_unready s = elim s.backend [ none ↦ true | some b ↦ s.pending_auth ]

refuse :
    (s : Server) (backend : Option Backend)
    → s.backend ≡ backend
    → is_unready s ≡ true
    → (m : Map) × (ready s ≡ err m) × (is_error m ≡ true)
unfolding ready
refuse s none e h = rw e (absent_answer s, refl, absent_answer-is_error s)
refuse s (some b) e h =
    let signed_out : s.pending_auth ≡ true = rw e at h in
    rw (e, signed_out) (not_ready s.configured, refl, not_ready-is_error s.configured)

module _ (encode : Map → String) {C X : Type 0} {A : C → Type 0}
    (perform : Backend → (c : C) → X → Result GoError (A c) × X) (name : String)
    (handle : Backend → Program C A) where
  -- What the handler ends with on the backend that is ready, or the refusal.
  pub payload : Result Map Backend → X → Map
  payload (err refusal) x = refusal
  payload (ok b) x = (run (perform b) (handle b) x).0

  -- Whatever a tool answers, ready or not, and whatever the backend answered to it: the structured
  -- part has the two marks, in place of what the payload has under their keys, and is the payload at
  -- every other key.
  pub answer_call-Marked :
      (r : Result Map Backend) (x : X)
      → Marked (payload r x) (answer_call encode perform name handle r x).0.structured
  unfolding answer_call external payload
  answer_call-Marked (err refusal) x = mark_external-Marked refusal
  answer_call-Marked (ok b) x = mark_external-Marked (run (perform b) (handle b) x).0

  -- A tool that is called before the server is ready, without a backend or with one that is not
  -- signed in, makes no call: the state behind the backend is as before, and the text is an error
  -- that is not marked as external.
  pub answer_call-unready :
      (s : Server) (x : X)
      → is_unready s ≡ true
      → let (result, y) = answer_call encode perform name handle (ready s) x in
        (y ≡ x) × (m : Map) × (is_error m ≡ true) × (result.content ≡ encode m)
  unfolding answer_call external
  answer_call-unready s x h =
      let (m, e, bad) = refuse s s.backend refl h in rw (e, bad) (refl, m, bad, refl)
