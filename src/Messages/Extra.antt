-- ===== src/Messages/Extra.antt =====
-- internal/tools/messages.go: the actions that need MessageExtras, each one a case of
-- handleMessageExtra.
use better_telegram_mcp.Base.{◌||◌, Option, none, some, [], ◌∷◌, String, if◌then◌else◌, ltb, length}
use better_telegram_mcp.Base.Int.{ℤ, pos}
use better_telegram_mcp.Base.Text.{str_eq}
use better_telegram_mcp.Value.{bool, int, Map, is_empty}
use better_telegram_mcp.Results.{err_result}
use better_telegram_mcp.Messages.{
  MessageArgs, PollOptions, Program, ask, counted, flag, is_unset, none_of, or_true, unpin_message,
  unpin_all_messages, list_pinned, mark_read, message_context, message_link, list_reactions,
  delete_messages, purge_history, send_poll, save_draft, list_drafts, schedule_message,
  list_scheduled, cancel_scheduled, forward_messages, done,
}

unfoldable pub unpin : MessageArgs → Program
unpin args =
    if is_empty args.chat_id || is_unset args.message_id
    then done (err_result "'unpin' requires chat_id and message_id")
    else ask (unpin_message args.chat_id args.message_id) (flag "unpinned")

unfoldable pub unpin_all : MessageArgs → Program
unpin_all args =
    if is_empty args.chat_id
    then done (err_result "'unpin_all' requires chat_id")
    else ask (unpin_all_messages args.chat_id) (flag "unpinned_all")

unfoldable pub pinned : MessageArgs → Program
pinned args =
    if is_empty args.chat_id
    then done (err_result "'pinned' requires chat_id")
    else ask (list_pinned args.chat_id args.limit) (counted "messages")

unfoldable pub read : MessageArgs → Program
read args =
    if is_empty args.chat_id
    then done (err_result "'read' requires chat_id")
    else ask (mark_read args.chat_id args.message_id) (flag "marked_read")

unfoldable pub context : MessageArgs → Program
context args =
    if is_empty args.chat_id || is_unset args.message_id
    then done (err_result "'context' requires chat_id and message_id")
    else ask (message_context args.chat_id args.message_id args.around) (counted "messages")

unfoldable pub link : MessageArgs → Program
link args =
    if is_empty args.chat_id || is_unset args.message_id
    then done (err_result "'link' requires chat_id and message_id")
    else ask (message_link args.chat_id args.message_id) (λ r. r)

unfoldable pub reactions : MessageArgs → Program
reactions args =
    if is_empty args.chat_id || is_unset args.message_id
    then done (err_result "'reactions' requires chat_id and message_id")
    else ask (list_reactions args.chat_id args.message_id args.limit) (counted "reactions")

unfoldable pub delete_bulk : MessageArgs → Program
delete_bulk args =
    if is_empty args.chat_id || none_of args.message_ids
    then done (err_result "'delete_bulk' requires chat_id and message_ids")
    else ask (delete_messages args.chat_id args.message_ids) (λ deleted.
      ("deleted", int deleted) ∷ ("requested", int (pos (length args.message_ids))) ∷ [])

unfoldable pub purge : MessageArgs → Program
purge args =
    if is_empty args.chat_id
    then done (err_result "'purge' requires chat_id")
    else ask (purge_history args.chat_id args.revoke) (λ r. r)

unfoldable pub forward_bulk : MessageArgs → Program
forward_bulk args =
    if is_empty args.from_chat || is_empty args.to_chat || none_of args.message_ids
    then done (err_result "'forward_bulk' requires from_chat, to_chat and message_ids")
    else ask (forward_messages args.from_chat args.to_chat args.message_ids) (counted "messages")

unfoldable pub draft_save : MessageArgs → Program
draft_save args =
    if is_empty args.chat_id
    then done (err_result "'draft_save' requires chat_id; an empty text clears the draft")
    else ask (save_draft args.chat_id args.content)
        (λ saved. ("saved", bool saved) ∷ ("cleared", bool (str_eq args.content "")) ∷ [])

unfoldable pub draft_list : Program
draft_list = ask list_drafts (counted "drafts")

unfoldable pub schedule_list : MessageArgs → Program
schedule_list args =
    if is_empty args.chat_id
    then done (err_result "'schedule_list' requires chat_id")
    else ask (list_scheduled args.chat_id) (counted "messages")

unfoldable pub schedule_cancel : MessageArgs → Program
schedule_cancel args =
    if is_empty args.chat_id || none_of args.message_ids
    then done (err_result "'schedule_cancel' requires chat_id and message_ids")
    else ask (cancel_scheduled args.chat_id args.message_ids) (λ cancelled.
      ("cancelled", bool cancelled) ∷ ("count", int (pos (length args.message_ids))) ∷ [])

abbrev pub bad_time : String → String → Map
bad_time field quoted = err_result (
    Prim.Native.String.◌++◌ field (
      Prim.Native.String.◌++◌ " must be an RFC3339 time such as 2026-01-31T09:00:00Z, got " quoted))

-- `parse_time` is time.Parse(time.RFC3339, …) and `quote` is fmt's %q.
module _ (parse_time : String → Option ℤ) (quote : String → String) where
  unfoldable pub schedule : MessageArgs → Program
  schedule args =
      if is_empty args.chat_id || str_eq args.content "" || str_eq args.send_at ""
      then done (err_result "'schedule' requires chat_id, text and send_at (RFC3339)")
      else elim (parse_time args.send_at) [
        | none ↦ done (bad_time "send_at" (quote args.send_at))
        | some at ↦ ask (schedule_message args.chat_id args.content at) (λ r. r)
      ]

  abbrev pub poll_options : MessageArgs → Option ℤ → PollOptions
  poll_options args closes = record {
    multiple_choice = args.multiple_choice;
    anonymous = or_true args.anonymous;
    quiz = args.quiz;
    closes = closes;
  }

  -- handlePoll
  unfoldable pub handle_poll : MessageArgs → Program
  handle_poll args =
      if is_empty args.chat_id || str_eq args.question "" || ltb (length args.options) 2
      then done (err_result "'poll' requires chat_id, question and at least 2 options")
      else if str_eq args.close_at ""
      then ask (send_poll args.chat_id args.question args.options (poll_options args none)) (λ r. r)
      else elim (parse_time args.close_at) [
        | none ↦ done (bad_time "close_at" (quote args.close_at))
        | some at ↦
            ask (send_poll args.chat_id args.question args.options (poll_options args (some at)))
              (λ r. r)
      ]
