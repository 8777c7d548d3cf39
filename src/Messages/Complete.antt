-- ===== src/Messages/Complete.antt =====
-- Which calls the `message` tool of internal/tools/messages.go can make.
use better_telegram_mcp.Base.{Bool, List, String}
use better_telegram_mcp.Base.Int.{ℤ}
use better_telegram_mcp.Base.Result.{Result, ok}
use better_telegram_mcp.Results.{GoError}
use better_telegram_mcp.Value.{Map}
use better_telegram_mcp.Messages.{
  MessageArgs, Call, Answer, Program, done, call, get_callback_queries, answer_callback_query,
  lookup_resume_session,
}
use better_telegram_mcp.Programs.Calls.{
  case-Calls, capable-Calls, Calls, done-Calls, ask-Calls, Calls-mono,
}
use better_telegram_mcp.Messages.Extra.{draft_list}
use better_telegram_mcp.Messages.Presses.{
  Allowed, Follows, MayRead, MayFollow, handle_callbacks-Allowed,
}
use better_telegram_mcp.Messages.Callbacks.{handle_callbacks}
use better_telegram_mcp.Messages.Dispatch.{
  Env, message_actions, handle_message, handle_message_extra, serve_extra,
}
use better_telegram_mcp.Messages.Checked.{
  Complete, handle_send-Complete, handle_edit-Complete, handle_delete-Complete,
  handle_forward-Complete, handle_pin-Complete, handle_react-Complete, handle_search-Complete,
  handle_history-Complete, unpin-Complete, unpin_all-Complete, pinned-Complete, read-Complete,
  context-Complete, link-Complete, reactions-Complete, delete_bulk-Complete, purge-Complete,
  forward_bulk-Complete, draft_save-Complete, schedule_list-Complete, schedule_cancel-Complete,
  handle_answer-Complete, schedule-Complete, handle_poll-Complete,
}

MayRead-Complete : (args : MessageArgs) (c : Call) → MayRead args c → Complete c
MayRead-Complete args (get_callback_queries since l consume) h = tt
MayRead-Complete args _ h = elim h [ ]

MayFollow-Complete :
    (args : MessageArgs) (updates : List Map) (c : Call) → MayFollow args updates c → Complete c
MayFollow-Complete args updates (answer_callback_query query content alert) h = (h.3, h.6)
MayFollow-Complete args updates (lookup_resume_session chat id) h = tt
MayFollow-Complete args updates _ h = elim h [ ]

Follows-Complete :
    (args : MessageArgs) (c : Call) (a : Result GoError (Answer c)) (d : Call)
    → Follows args c a d
    → Complete d
Follows-Complete args (get_callback_queries since l consume) (ok updates) d h =
    MayFollow-Complete args updates d h
Follows-Complete args _ _ d h = elim h [ ]

Allowed-Complete : (args : MessageArgs) (p : Program) → Allowed args p → Calls Complete p
unfolding Calls
Allowed-Complete args (done result) h = tt
Allowed-Complete args (call c next) (asked, h) = (
  MayRead-Complete args c asked,
  λ a. Calls-mono (Follows args c a) Complete (next a) (Follows-Complete args c a) (h a),
)

handle_callbacks-Complete :
    (compile : String → Result String (String → String)) (iso : ℤ → String) (polled_at : String)
    (args : MessageArgs)
    → Calls Complete (handle_callbacks compile iso polled_at args)
handle_callbacks-Complete compile iso polled_at args =
    Allowed-Complete args _ (handle_callbacks-Allowed compile iso polled_at args)

draft_list-Complete : Calls Complete draft_list
unfolding draft_list
draft_list-Complete = ask-Calls Answer Complete _ _ tt

serve_extra-Complete : (env : Env) (args : MessageArgs) → Calls Complete (serve_extra env args)
unfolding serve_extra
serve_extra-Complete env args = case-Calls Answer Complete _ _ _ (unpin-Complete args) (
    case-Calls Answer Complete _ _ _ (unpin_all-Complete args) (
      case-Calls Answer Complete _ _ _ (pinned-Complete args) (
        case-Calls Answer Complete _ _ _ (read-Complete args) (
          case-Calls Answer Complete _ _ _ (context-Complete args) (
            case-Calls Answer Complete _ _ _ (link-Complete args) (
              case-Calls Answer Complete _ _ _ (reactions-Complete args) (
                case-Calls Answer Complete _ _ _ (delete_bulk-Complete args) (
                  case-Calls Answer Complete _ _ _ (purge-Complete args) (
                    case-Calls Answer Complete _ _ _ (forward_bulk-Complete args) (
                      case-Calls Answer Complete _ _ _
                        (handle_poll-Complete env.parse_time env.quote args)
                        (case-Calls Answer Complete _ _ _ (draft_save-Complete args) (
                          case-Calls Answer Complete _ _ _ draft_list-Complete (
                            case-Calls Answer Complete _ _ _
                              (schedule-Complete env.parse_time env.quote args)
                              (case-Calls Answer Complete _ _ _ (schedule_list-Complete args) (
                                case-Calls Answer Complete _ _ _ (schedule_cancel-Complete args)
                                  (done-Calls Answer Complete _))))))))))))))))

handle_message_extra-Complete :
    (env : Env) (extras : Bool) (args : MessageArgs)
    → Calls Complete (handle_message_extra env extras args)
unfolding handle_message_extra
handle_message_extra-Complete env extras args =
    capable-Calls Answer Complete env.lower message_actions args.action extras _
      (serve_extra-Complete env args)

-- Whatever the arguments and whatever the backend answers, every call that HandleMessage makes has
-- been given what it needs: a chat that is not empty, a message id that is not 0, message ids that
-- are not none, a text, query, emoji or question that is not empty, at least two poll answers, and an
-- answer of at most 200 characters.
pub handle_message-Complete :
    (env : Env) (extras : Bool) (args : MessageArgs)
    → Calls Complete (handle_message env extras args)
unfolding handle_message
handle_message-Complete env extras args =
    case-Calls Answer Complete _ _ _ (handle_send-Complete args) (
      case-Calls Answer Complete _ _ _ (handle_edit-Complete args) (
        case-Calls Answer Complete _ _ _ (handle_delete-Complete args) (
          case-Calls Answer Complete _ _ _ (handle_forward-Complete args) (
            case-Calls Answer Complete _ _ _ (handle_pin-Complete args) (
              case-Calls Answer Complete _ _ _ (handle_react-Complete args) (
                case-Calls Answer Complete _ _ _ (handle_search-Complete args) (
                  case-Calls Answer Complete _ _ _ (handle_history-Complete args) (
                    case-Calls Answer Complete _ _ _
                      (handle_callbacks-Complete env.compile env.iso env.polled_at args)
                      (case-Calls Answer Complete _ _ _ (handle_answer-Complete args)
                        (handle_message_extra-Complete env extras args))))))))))
