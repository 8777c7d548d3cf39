-- ===== src/Messages.antt =====
-- internal/tools/messages.go: the `message` tool. A handler is a program that calls the backend
-- and goes on with what it answers; the backend is internal/telegram/backend.go's interface and the
-- MessageExtras of internal/telegram/capabilities.go.
pub mod Core
pub mod Extra
pub mod Callbacks
pub mod Dispatch
pub mod Checked
pub mod Complete
pub mod Presses
pub mod Report
pub mod Guards
mod Tests
pub use better_telegram_mcp.Programs.{
  done, call, answered, ask, counted, flag, is_unset, none_of, or_true,
}
use better_telegram_mcp.Programs
use better_telegram_mcp.Base.{
  ℕ, ◌≡◌, Bool, true, false, not, ◌&&◌, ◌||◌, Option, none, some, List, [], ◌∷◌, String, length,
  if◌then◌else◌,
}
use better_telegram_mcp.Base.Int.{ℤ, pos, ltb_ℤ, eqb_ℤ}
use better_telegram_mcp.Base.Result.{Result, ok, err}
use better_telegram_mcp.Value.{
  Value, nil, bool, int, text, list, object, Items, stop, cons, Map, to_fields,
}
use better_telegram_mcp.Results.{GoError, safe_error}

-- MessageArgs. A number the caller left out is 0, a text "", and an optional flag or a nil slice
-- that differs from an empty one is `none`.
pub record MessageArgs : Type 0 where
  pub action : String
  pub chat_id : Value
  pub content : String
  pub message_id : ℤ
  pub reply_to : ℤ
  pub parse_mode : String
  pub from_chat : Value
  pub to_chat : Value
  pub emoji : String
  pub query : String
  pub limit : ℤ
  pub offset_id : ℤ
  pub message_ids : List ℤ
  pub around : ℤ
  pub revoke : Bool
  pub question : String
  pub options : List String
  pub multiple_choice : Bool
  pub anonymous : Option Bool
  pub quiz : Bool
  pub close_at : String
  pub send_at : String
  pub buttons : Option (List Value)
  pub since_id : Option ℤ
  pub callback_query_id : String
  pub answer_text : String
  pub show_alert : Bool
  pub auto_answer : Option Bool
  pub allowed_from_ids : Option (List ℤ)
  pub data_pattern : String
  pub resume_session : String
  pub peek : Bool

-- The callers that AllowedFromIDs names, none of them for a nil slice.
abbrev pub caller_ids : Option (List ℤ) → List ℤ
caller_ids none = []
caller_ids (some ids) = ids

-- PollOptions; `closes` is none for the zero time.
pub record PollOptions : Type 0 where
  pub multiple_choice : Bool
  pub anonymous : Bool
  pub quiz : Bool
  pub closes : Option ℤ

-- A call of the backend, with its arguments in the source's order. A time is in Unix seconds.
pub data Call : Type 0 where
  send_message : Value → String → ℤ → String → Value → Call
  edit_message : Value → ℤ → String → String → Value → Call
  edit_message_buttons : Value → ℤ → Value → Call
  delete_message : Value → ℤ → Call
  forward_message : Value → Value → ℤ → Call
  pin_message : Value → ℤ → Call
  react_to_message : Value → ℤ → String → Call
  search_messages : String → Value → ℤ → Call
  get_history : Value → ℤ → ℤ → Call
  get_callback_queries : Option ℤ → ℤ → Bool → Call
  answer_callback_query : String → String → Bool → Call
  record_resume_session : Value → ℤ → String → Call
  lookup_resume_session : Value → ℤ → Call
  unpin_message : Value → ℤ → Call
  unpin_all_messages : Value → Call
  list_pinned : Value → ℤ → Call
  mark_read : Value → ℤ → Call
  message_context : Value → ℤ → ℤ → Call
  message_link : Value → ℤ → Call
  list_reactions : Value → ℤ → ℤ → Call
  delete_messages : Value → List ℤ → Call
  purge_history : Value → Bool → Call
  send_poll : Value → String → List String → PollOptions → Call
  save_draft : Value → String → Call
  list_drafts : Call
  schedule_message : Value → String → ℤ → Call
  list_scheduled : Value → Call
  cancel_scheduled : Value → List ℤ → Call
  forward_messages : Value → Value → List ℤ → Call

-- What a call answers when it does not fail.
abbrev pub Answer : Call → Type 0
Answer (delete_message c m) = Bool
Answer (pin_message c m) = Bool
Answer (react_to_message c m e) = Bool
Answer (search_messages q c l) = List Map
Answer (get_history c l o) = List Map
Answer (get_callback_queries s l c) = List Map
Answer (answer_callback_query q t a) = Bool
Answer (record_resume_session c m s) = Bool
Answer (lookup_resume_session c m) = String
Answer (unpin_message c m) = Bool
Answer (unpin_all_messages c) = Bool
Answer (list_pinned c l) = List Map
Answer (mark_read c m) = Bool
Answer (message_context c m a) = List Map
Answer (list_reactions c m l) = List Map
Answer (delete_messages c ids) = ℤ
Answer (save_draft c t) = Bool
Answer list_drafts = List Map
Answer (list_scheduled c) = List Map
Answer (cancel_scheduled c ids) = Bool
Answer (forward_messages f t ids) = List Map
Answer _ = Map

-- A handler's program over these calls.
abbrev pub Program : Type 0
Program = Programs.Program Call Answer

-- limitOr
unfoldable pub limit_or : ℤ → MessageArgs → ℤ
limit_or fallback args = if ltb_ℤ (pos 0) args.limit then args.limit else fallback
