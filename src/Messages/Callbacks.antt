-- ===== src/Messages/Callbacks.antt =====
-- internal/tools/messages.go: handleCallbacks, normalizeCallback and rejectionReason.
use better_telegram_mcp.Base.{
  Bool, true, false, not, ◌&&◌, ◌||◌, Option, none, some, List, [], ◌∷◌, ◌++◌, String,
  if◌then◌else◌, ltb, length,
}
use better_telegram_mcp.Base.Int.{ℤ, pos, ltb_ℤ, eqb_ℤ}
use better_telegram_mcp.Base.Text.{str_eq, rune_count}
use better_telegram_mcp.Base.Result.{Result, ok, err}
use better_telegram_mcp.Base.Dict
use better_telegram_mcp.Value.{
  Value, nil, bool, int, int64, text, object, fields, Map, get, as_int, string_key,
}
use better_telegram_mcp.Results.{GoError, err_result}
use better_telegram_mcp.Messages.{
  caller_ids, MessageArgs, Program, answered, counted, limit_or, is_unset, none_of, or_true,
  get_callback_queries, answer_callback_query, lookup_resume_session, done, call,
}

-- `value.(map[string]any)`, where the failing assertion leaves a nil map
abbrev pub as_map : Value → Map
as_map (object fs) = fields fs
as_map _ = []

-- `value.(string)`, and whether it is one
abbrev pub as_text : Value → Option String
as_text (text s) = some s
as_text _ = none

-- `value == true`
abbrev pub is_true : Value → Bool
is_true (bool b) = b
is_true _ = false

-- `value == nil`
abbrev pub is_nil : Value → Bool
is_nil nil = true
is_nil _ = false

-- numeric
unfoldable pub numeric : Value → Value
numeric value = elim (as_int value) [ none ↦ value | some n ↦ int64 n ]

-- the keys of AllowedFromIDs
abbrev pub allows : List ℤ → ℤ → Bool
allows [] id = false
allows (x ∷ xs) id = eqb_ℤ x id || allows xs id

-- `cursor == nil || id > *cursor`
unfoldable pub advance : Option ℤ → Option ℤ → Option ℤ
advance none cursor = cursor
advance (some id) none = some id
advance (some id) (some c) = if ltb_ℤ c id then some id else some c

-- `!ok || !allowed[from]`
abbrev pub is_stranger : List ℤ → Option ℤ → Bool
is_stranger allowed none = true
is_stranger allowed (some from) = not (allows allowed from)

-- `id, ok := asInt(…); !ok || id != args.MessageID`
abbrev differs : ℤ → Option ℤ → Bool
differs wanted none = true
differs wanted (some id) = not (eqb_ℤ id wanted)

-- The press belongs to another message than the one asked for.
unfoldable pub is_elsewhere : MessageArgs → Map → Bool
is_elsewhere args entry =
    not (is_unset args.message_id) && differs args.message_id (as_int (get "message_id" entry))

-- intOrNil
abbrev pub int_or_nil : Option ℤ → Value
int_or_nil none = nil
int_or_nil (some n) = int n

-- rejectionReason; `find` is the compiled pattern's FindString, and `none` the empty reason.
unfoldable pub rejection_reason : Map → List ℤ → Option (String → String) → Option String
rejection_reason entry allowed find = elim (as_text (get "callback_query_id" entry)) [
  | none ↦ some "malformed"
  | some query_id ↦
      if str_eq query_id "" then some "malformed" else elim (as_text (get "data" entry)) [
        | none ↦ some "malformed"
        | some pressed ↦
            if not (none_of allowed) && is_stranger allowed (as_int (get "from_id" entry))
            then some "unauthorized_sender"
            else elim find [
              | none ↦ none
              | some match ↦
                  if str_eq (match pressed) pressed then none else some "data_pattern_mismatch"
            ]
      ]
]

-- `iso` is the RFC3339 text of a Unix time, in UTC.
module _ (iso : ℤ → String) where
  -- isoUTC
  iso_utc : Value → Value
  iso_utc value = elim (as_int value) [ none ↦ nil | some seconds ↦ text (iso seconds) ]

  -- normalizeCallback
  unfoldable pub normalize_callback : Map → String → Map
  unfolding numeric iso_utc
  normalize_callback update polled_at =
      let query = as_map (get "callback_query" update) in
      let sender = as_map (get "from" query) in
      let msg = as_map (get "message" query) in
      let chat = as_map (get "chat" msg) in
      ("update_id", numeric (get "update_id" update))
      ∷ ("callback_query_id", get "id" query)
      ∷ ("data", get "data" query)
      ∷ ("from_id", numeric (get "id" sender))
      ∷ ("from_username", get "username" sender)
      ∷ ("chat_id", numeric (get "id" chat))
      ∷ ("message_id", numeric (get "message_id" msg))
      ∷ ("message_date", iso_utc (get "date" msg))
      ∷ ("received_at", text polled_at)
      ∷ ("answered", bool (is_true (get "answered" update)))
      ∷ []

-- accepted, ignored and cursor
pub record Progress : Type 0 where
  pub accepted : List Map
  pub ignored : List Map
  pub cursor : Option ℤ

-- The result of handleCallbacks.
unfoldable pub report : MessageArgs → Progress → Map
report args p = Dict.insert "cursor" (int_or_nil p.cursor) (
    counted "callbacks" p.accepted
    ++ ("ignored", get "ignored" (counted "ignored" p.ignored))
      ∷ ("ignored_count", int (pos (length p.ignored)))
      ∷ ("peek", bool args.peek)
      ∷ [])

-- What follows the answer of LookupResumeSession.
abbrev pub found : Map → (Map → Program) → Result GoError String → Program
found entry next (err e) = next (Dict.insert "session_id" nil entry)
found entry next (ok session) =
    next (Dict.insert "session_id" (if str_eq session "" then nil else text session) entry)

-- Whose session asked, when the sender registered one.
unfoldable pub ask_session : Map → (Map → Program) → Program
ask_session entry next =
    if not (is_nil (get "chat_id" entry)) && not (is_nil (get "message_id" entry))
    then elim (as_int (get "message_id" entry)) [
      | none ↦ next entry
      | some id ↦ call (lookup_resume_session (get "chat_id" entry) id) (found entry next)
    ]
    else next entry

-- Whether the press is acknowledged before it is handed over.
unfoldable pub is_due : MessageArgs → Map → Bool
is_due args entry =
    or_true args.auto_answer && not args.peek && not (is_true (get "answered" entry))

abbrev pub or_empty : Option String → String
or_empty none = ""
or_empty (some s) = s

-- What follows the answer of AnswerCallbackQuery; a failed one does not lose the press.
abbrev pub tried : Map → (Map → Program) → Result GoError Bool → Program
tried entry next (err e) = next entry
tried entry next (ok b) = next (Dict.insert "answered" (bool true) entry)

-- The acknowledgement.
unfoldable pub acknowledge : MessageArgs → Map → (Map → Program) → Program
acknowledge args entry next =
    if is_due args entry
    then call
        (answer_callback_query (or_empty (as_text (get "callback_query_id" entry))) args.answer_text
          args.show_alert)
        (tried entry next)
    else next entry

abbrev pub accept : Progress → Map → Progress
accept p entry = record p { accepted = p.accepted ++ entry ∷ [] }

abbrev pub reject : Progress → Map → String → Progress
reject p entry reason = record p {
  ignored = p.ignored ++ Dict.insert "reason" (text reason) entry ∷ [];
}

abbrev pub move : Progress → Map → Progress
move p entry = record p { cursor = advance (as_int (get "update_id" entry)) p.cursor }

module _ (args : MessageArgs) (find : Option (String → String)) where
  -- The loop over the updates, each already an entry.
  unfoldable pub each : Progress → List Map → Program
  unfolding acknowledge ask_session
  each p [] = done (report args p)
  each p (entry ∷ entries) =
      if is_elsewhere args entry
      then each (move p entry) entries
      else elim (rejection_reason entry (caller_ids args.allowed_from_ids) find) [
        | some reason ↦ each (reject (move p entry) entry reason) entries
        | none ↦
            acknowledge args entry
              (λ acked. ask_session acked (λ e. each (accept (move p entry) e) entries))
      ]

-- `compile` is regexp.Compile, a pattern's FindString or its refusal; `iso` formats a time, and
-- `polled_at` is the time of the read.
module _ (compile : String → Result String (String → String)) (iso : ℤ → String)
    (polled_at : String) where
  unfoldable pub entries_of : List Map → List Map
  entries_of [] = []
  entries_of (u ∷ us) = normalize_callback iso u polled_at ∷ entries_of us

  -- handleCallbacks, once the pattern is compiled
  unfoldable pub poll_presses : MessageArgs → Option (String → String) → Program
  poll_presses args find =
      if not (is_unset args.message_id) && not args.peek
      then done (
          err_result
            "'callbacks' with message_id only makes sense together with peek=true: a filtered consuming read would drop every other press instead of leaving it for whoever acts on it.")
      else call (get_callback_queries args.since_id (limit_or (pos 20) args) (not args.peek)) (
          answered (λ updates.
            each args find (record { accepted = []; ignored = []; cursor = args.since_id })
              (entries_of updates)))

  -- handleCallbacks
  unfoldable pub handle_callbacks : MessageArgs → Program
  unfolding poll_presses
  handle_callbacks args =
      if ltb 200 (rune_count args.answer_text)
      then done (err_result "answer_text exceeds 200 characters")
      else if str_eq args.data_pattern ""
      then poll_presses args none
      else elim (compile args.data_pattern) [
        | err e ↦ done (err_result (Prim.Native.String.◌++◌ "Invalid data_pattern regex: " e))
        | ok find ↦ poll_presses args (some find)
      ]
