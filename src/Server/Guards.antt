-- ===== src/Server/Guards.antt =====
-- The operator's guardrails of internal/server/server.go on the presses that the `message` tool hands
-- over.
use better_telegram_mcp.Base.{
  ◌≡◌, ◌∙◌, refl, ap, Bool, true, false, Option, none, some, List, String, Bool-cases, inl, inr,
}
use better_telegram_mcp.Base.Int.{ℤ}
use better_telegram_mcp.Base.Text.{str_eq}
use better_telegram_mcp.Base.Dict
use better_telegram_mcp.Base.Result.{Result, ok, err}
use better_telegram_mcp.Value.{Value, nil, Map, get, string_key}
use better_telegram_mcp.Results.{GoError, err_result}
use better_telegram_mcp.Config.{Settings}
use better_telegram_mcp.Programs.{run}
use better_telegram_mcp.Programs.Calls.{Ends, Ends-run}
use better_telegram_mcp.Messages.{MessageArgs, Call, Answer, caller_ids}
use better_telegram_mcp.Messages.Dispatch.{Env, handle_message}
use better_telegram_mcp.Messages.Guards.{Handed, handle_callbacks-Handed}
use better_telegram_mcp.Tools.Setup.{not_ready}
use better_telegram_mcp.Server.{Server, Backend}
use better_telegram_mcp.Server.Marking.{external, mark_external, mark_external-Marked}
use better_telegram_mcp.Server.Calls.{
  connect_status, absent_answer, ready, guarded, or_settings, answer_call, message_tool,
}

-- The marks leave the presses of a payload as they are.
mark_external-callbacks : (m : Map) → get "callbacks" (mark_external m) ≡ get "callbacks" m
unfolding get
mark_external-callbacks m =
    ap (λ (o : Option Value). elim o [ none ↦ nil | some w ↦ w ])
      (mark_external-Marked m "callbacks")

mark_external-Handed :
    (allowed : List ℤ) (m : Map) → Handed allowed m → Handed allowed (mark_external m)
mark_external-Handed allowed m (inl h) = inl (mark_external-callbacks m ∙ h)
mark_external-Handed allowed m (inr (presses, e, h)) =
    inr (presses, mark_external-callbacks m ∙ e, h)

not_ready-callbacks : (b : Bool) → get "callbacks" (not_ready b) ≡ nil
unfolding not_ready get err_result Dict.lookup
not_ready-callbacks true = refl
not_ready-callbacks false = refl

absent_answer-callbacks : (s : Server) → get "callbacks" (absent_answer s) ≡ nil
unfolding absent_answer get err_result Dict.lookup
absent_answer-callbacks s = elim (Bool-cases (str_eq (connect_status s) "")) [
  | inl b ↦ rw b (not_ready-callbacks s.configured)
  | inr b ↦ rw b refl
]

-- A refusal hands over no presses.
abbrev NoPresses : Result Map Backend → Type 0
NoPresses (err m) = get "callbacks" m ≡ nil
NoPresses (ok b) = Unit

ready-NoPresses : (s : Server) (b : Option Backend) → s.backend ≡ b → NoPresses (ready s)
unfolding ready
ready-NoPresses s none e = rw e (absent_answer-callbacks s)
ready-NoPresses s (some b) e = rw e (elim (Bool-cases s.pending_auth) [
  | inl p ↦ rw p (not_ready-callbacks s.configured)
  | inr p ↦ rw p tt
])

handle_message-Handed :
    (env : Env) (args : MessageArgs)
    → args.action ≡ "callbacks"
    → Ends (Handed (caller_ids args.allowed_from_ids)) (handle_message env true args)
unfolding handle_message
handle_message-Handed env args h = rw h (
    handle_callbacks-Handed env.compile env.iso env.polled_at
      (record args { action = "callbacks" }))

guarded-action :
    (settings : Settings) (args : MessageArgs)
    → args.action ≡ "callbacks"
    → (guarded settings args).action ≡ "callbacks"
unfolding guarded
guarded-action settings args action = rw action refl

-- Whose presses a call may hand over: the list of the call, empty or not, takes the place of the
-- operator's senders, and a call that leaves the list out has theirs. An empty list names no one, and
-- then everyone's presses are handed over.
abbrev pub callers_of : Settings → Option (List ℤ) → List ℤ
callers_of settings none = settings.allowed_callback_senders
callers_of settings (some ids) = ids

or_settings-caller_ids :
    (settings : Settings) (given : Option (List ℤ))
    → caller_ids (or_settings settings.allowed_callback_senders given) ≡ callers_of settings given
or_settings-caller_ids settings none = refl
or_settings-caller_ids settings (some ids) = refl

guarded-caller_ids :
    (settings : Settings) (args : MessageArgs)
    → args.action ≡ "callbacks"
    → caller_ids (guarded settings args).allowed_from_ids
      ≡ callers_of settings args.allowed_from_ids
unfolding guarded
guarded-caller_ids settings args action =
    rw action (or_settings-caller_ids settings args.allowed_from_ids)

guarded-Handed :
    (env : Env) (settings : Settings) (args : MessageArgs)
    → args.action ≡ "callbacks"
    → Ends
        (Handed (callers_of settings args.allowed_from_ids))
        (handle_message env true (guarded settings args))
guarded-Handed env settings args action =
    let h =
      handle_message-Handed env (guarded settings args) (guarded-action settings args action) in
    rw (guarded-caller_ids settings args action) at h

module _ (encode : Map → String) {X : Type 0} (env : Env)
    (perform : Backend → (c : Call) → X → Result GoError (Answer c) × X) where
  answer_call-Handed :
      (settings : Settings) (args : MessageArgs) (r : Result Map Backend) (x : X)
      → NoPresses r
      → Ends
          (Handed (callers_of settings args.allowed_from_ids))
          (handle_message env true (guarded settings args))
      → Handed
          (callers_of settings args.allowed_from_ids)
          (answer_call encode perform "message"
            (λ b. handle_message env true (guarded settings args))
            r
            x).0.structured
  unfolding answer_call external
  answer_call-Handed settings args (err m) x h k = mark_external-Handed _ m (inl h)
  answer_call-Handed settings args (ok b) x h k =
      let program = handle_message env true (guarded settings args) in
      mark_external-Handed _ (run (perform b) program x).0 (Ends-run (perform b) _ program x k)

  -- The presses that the `message` tool answers with are all from the senders that the operator
  -- allows, where the call leaves allowed_from_ids out and the operator names any, and from the
  -- callers of the call's own list, where it gives one that is not empty; whatever the state of the
  -- server, and whatever Telegram answers. A list that the call gives takes the place of the
  -- operator's, an empty one too, and nothing is promised of the senders then.
  pub message_tool-Handed :
      (s : Server) (args : MessageArgs) (x : X)
      → args.action ≡ "callbacks"
      → Handed
          (callers_of s.settings args.allowed_from_ids)
          (message_tool encode env perform s args x).0.structured
  unfolding message_tool
  message_tool-Handed s args x action =
      answer_call-Handed s.settings args (ready s) x (ready-NoPresses s s.backend refl)
        (guarded-Handed env s.settings args action)
