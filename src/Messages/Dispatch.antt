-- ===== src/Messages/Dispatch.antt =====
-- internal/tools/messages.go: HandleMessage and handleMessageExtra.
use better_telegram_mcp.Base.{Bool, Option, List, [], ◌∷◌, String, if◌then◌else◌}
use better_telegram_mcp.Base.Int.{ℤ}
use better_telegram_mcp.Base.Text.{str_eq}
use better_telegram_mcp.Base.Result.{Result}
use better_telegram_mcp.Results.{unknown_action}
use better_telegram_mcp.Programs.{capable}
use better_telegram_mcp.Messages.{MessageArgs, Program, done}
use better_telegram_mcp.Messages.Core.{
  handle_send, handle_edit, handle_delete, handle_forward, handle_pin, handle_react, handle_search,
  handle_history, handle_answer,
}
use better_telegram_mcp.Messages.Extra.{
  unpin, unpin_all, pinned, read, context, link, reactions, delete_bulk, purge, forward_bulk,
  draft_save, draft_list, schedule_list, schedule_cancel, schedule, handle_poll,
}
use better_telegram_mcp.Messages.Callbacks.{handle_callbacks}

-- messageActions
abbrev pub message_actions : List String
message_actions =
    "send" ∷ "edit" ∷ "delete" ∷ "delete_bulk" ∷ "purge" ∷ "forward" ∷ "forward_bulk" ∷ "pin"
    ∷ "unpin" ∷ "unpin_all" ∷ "pinned" ∷ "react" ∷ "reactions" ∷ "read" ∷ "search" ∷ "history"
    ∷ "context" ∷ "link" ∷ "poll" ∷ "draft_save" ∷ "draft_list" ∷ "schedule" ∷ "schedule_list"
    ∷ "schedule_cancel" ∷ "callbacks" ∷ "answer" ∷ []

-- The world outside: strings.ToLower, time.Parse, %q, regexp.Compile, the text of a time, and the
-- time of a read.
pub record Env : Type 0 where
  pub lower : String → String
  pub parse_time : String → Option ℤ
  pub quote : String → String
  pub compile : String → Result String (String → String)
  pub iso : ℤ → String
  pub polled_at : String

module _ (env : Env) where
  -- the switch of handleMessageExtra
  unfoldable pub serve_extra : MessageArgs → Program
  serve_extra args =
      if str_eq args.action "unpin"
      then unpin args
      else if str_eq args.action "unpin_all"
      then unpin_all args
      else if str_eq args.action "pinned"
      then pinned args
      else if str_eq args.action "read"
      then read args
      else if str_eq args.action "context"
      then context args
      else if str_eq args.action "link"
      then link args
      else if str_eq args.action "reactions"
      then reactions args
      else if str_eq args.action "delete_bulk"
      then delete_bulk args
      else if str_eq args.action "purge"
      then purge args
      else if str_eq args.action "forward_bulk"
      then forward_bulk args
      else if str_eq args.action "poll"
      then handle_poll env.parse_time env.quote args
      else if str_eq args.action "draft_save"
      then draft_save args
      else if str_eq args.action "draft_list"
      then draft_list
      else if str_eq args.action "schedule"
      then schedule env.parse_time env.quote args
      else if str_eq args.action "schedule_list"
      then schedule_list args
      else if str_eq args.action "schedule_cancel"
      then schedule_cancel args
      else done (unknown_action env.lower args.action message_actions)

  -- handleMessageExtra; `extras` says whether the backend implements MessageExtras
  unfoldable pub handle_message_extra : Bool → MessageArgs → Program
  unfolding serve_extra capable
  handle_message_extra extras args =
      capable env.lower message_actions args.action extras (serve_extra args)

  -- HandleMessage
  unfoldable pub handle_message : Bool → MessageArgs → Program
  unfolding handle_message_extra
  handle_message extras args =
      if str_eq args.action "send"
      then handle_send args
      else if str_eq args.action "edit"
      then handle_edit args
      else if str_eq args.action "delete"
      then handle_delete args
      else if str_eq args.action "forward"
      then handle_forward args
      else if str_eq args.action "pin"
      then handle_pin args
      else if str_eq args.action "react"
      then handle_react args
      else if str_eq args.action "search"
      then handle_search args
      else if str_eq args.action "history"
      then handle_history args
      else if str_eq args.action "callbacks"
      then handle_callbacks env.compile env.iso env.polled_at args
      else if str_eq args.action "answer"
      then handle_answer args
      else handle_message_extra extras args
