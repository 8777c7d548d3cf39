-- ===== src/Messages/Checked.antt =====
-- What the handlers of internal/tools/messages.go check before each call of the backend.
use better_telegram_mcp.Base.{
  ◌≡◌, false, ◌&&◌, ◌||◌, Option, String, Bool-cases, Option-cases, inl, inr, ltb, length, arith,
}
use better_telegram_mcp.Base.Int.{ℤ}
use better_telegram_mcp.Base.Text.{str_eq, rune_count}
use better_telegram_mcp.Value.{Value, Map, is_empty, get, as_int}
use better_telegram_mcp.Messages.{
  MessageArgs, Call, Answer, is_unset, none_of, send_message, edit_message, edit_message_buttons,
  delete_message, forward_message, pin_message, react_to_message, search_messages, get_history,
  get_callback_queries, answer_callback_query, record_resume_session, lookup_resume_session,
  unpin_message, unpin_all_messages, list_pinned, mark_read, message_context, message_link,
  list_reactions, delete_messages, purge_history, send_poll, save_draft, list_drafts,
  schedule_message, list_scheduled, cancel_scheduled, forward_messages,
}
use better_telegram_mcp.Programs.Calls.{
  refuse-Calls, Calls, done-Calls, answered-Calls, ask-Calls, if-Calls,
}
use better_telegram_mcp.Messages.Core.{
  is_missing, register, handle_send, handle_edit, handle_delete, handle_forward, handle_pin,
  handle_react, handle_search, handle_history, handle_answer,
}
use better_telegram_mcp.Messages.Extra.{
  unpin, unpin_all, pinned, read, context, link, reactions, delete_bulk, purge, forward_bulk,
  draft_save, schedule_list, schedule_cancel, schedule, handle_poll,
}

-- A chat that was supplied, and an id that was.
abbrev pub Given : Value → Type 0
Given chat = is_empty chat ≡ false

abbrev pub IsNonzero : ℤ → Type 0
IsNonzero id = is_unset id ≡ false

-- What a call must have been given.
abbrev pub Complete : Call → Type 0
Complete (send_message chat content r p b) = Given chat × (str_eq content "" ≡ false)
Complete (edit_message chat id content p b) =
    Given chat × IsNonzero id × (str_eq content "" ≡ false)
Complete (edit_message_buttons chat id b) = Given chat × IsNonzero id
Complete (delete_message chat id) = Given chat × IsNonzero id
Complete (forward_message source target id) = Given source × Given target × IsNonzero id
Complete (pin_message chat id) = Given chat × IsNonzero id
Complete (react_to_message chat id emoji) = Given chat × IsNonzero id × (str_eq emoji "" ≡ false)
Complete (search_messages query chat l) = str_eq query "" ≡ false
Complete (get_history chat l o) = Given chat
Complete (get_callback_queries since l consume) = Unit
Complete (answer_callback_query query content alert) =
    (str_eq query "" ≡ false) × (ltb 200 (rune_count content) ≡ false)
Complete (record_resume_session chat id session) = Given chat × (str_eq session "" ≡ false)
Complete (lookup_resume_session chat id) = Unit
Complete (unpin_message chat id) = Given chat × IsNonzero id
Complete (unpin_all_messages chat) = Given chat
Complete (list_pinned chat l) = Given chat
Complete (mark_read chat id) = Given chat
Complete (message_context chat id a) = Given chat × IsNonzero id
Complete (message_link chat id) = Given chat × IsNonzero id
Complete (list_reactions chat id l) = Given chat × IsNonzero id
Complete (delete_messages chat ids) = Given chat × (none_of ids ≡ false)
Complete (purge_history chat revoke) = Given chat
Complete (send_poll chat question options o) =
    Given chat × (str_eq question "" ≡ false) × (ltb (length options) 2 ≡ false)
Complete (save_draft chat content) = Given chat
Complete list_drafts = Unit
Complete (schedule_message chat content at) = Given chat × (str_eq content "" ≡ false)
Complete (list_scheduled chat) = Given chat
Complete (cancel_scheduled chat ids) = Given chat × (none_of ids ≡ false)
Complete (forward_messages source target ids) = Given source × Given target × (none_of ids ≡ false)

pub register-Complete :
    (args : MessageArgs) (r : Map) → Given args.chat_id → Calls Complete (register args r)
unfolding Calls register
register-Complete args r g = elim (Bool-cases (str_eq args.resume_session "")) [
  | inl h ↦ rw (register, h) tt
  | inr h ↦ elim (Option-cases (as_int (get "message_id" r))) [
    | inl q ↦ rw (register, h, q) tt
    | inr (id, q) ↦ rw (register, h, q) ((g, h), λ a. answered-Calls Answer Complete _ a (λ x. tt))
  ]
]

pub handle_send-Complete : (args : MessageArgs) → Calls Complete (handle_send args)
unfolding Calls handle_send
handle_send-Complete args = elim (Bool-cases (is_empty args.chat_id || str_eq args.content "")) [
  | inl e ↦ rw (handle_send, e) tt
  | inr e ↦
      let given : is_empty args.chat_id ≡ false = ground (arith, e) in
      let content : str_eq args.content "" ≡ false = ground (arith, e) in
      rw (handle_send, e)
        (
          (given, content),
          λ a. answered-Calls Answer Complete _ a (λ r. register-Complete args r given),
        )
]

pub handle_edit-Complete : (args : MessageArgs) → Calls Complete (handle_edit args)
unfolding handle_edit
handle_edit-Complete args =
    elim (Bool-cases (
      is_empty args.chat_id
      || is_unset args.message_id
      || (str_eq args.content "" && is_missing args.buttons))) [
        | inl e ↦ rw e (done-Calls Answer Complete _)
        | inr e ↦
            let given : Given args.chat_id × IsNonzero args.message_id =
              (ground (arith, e), ground (arith, e)) in
            rw e (elim (Bool-cases (str_eq args.content "")) [
              | inl h ↦ rw h (ask-Calls Answer Complete (edit_message_buttons _ _ _) _ given)
              | inr h ↦
                  rw h (ask-Calls Answer Complete (edit_message _ _ _ _ _) _ (given.0, given.1, h))
            ])
      ]

pub handle_delete-Complete : (args : MessageArgs) → Calls Complete (handle_delete args)
unfolding handle_delete
handle_delete-Complete args =
    refuse-Calls Answer Complete _ _ _ _ (λ e. (ground (arith, e), ground (arith, e)))

pub handle_forward-Complete : (args : MessageArgs) → Calls Complete (handle_forward args)
unfolding handle_forward
handle_forward-Complete args =
    refuse-Calls Answer Complete _ _ _ _
      (λ e. (ground (arith, e), ground (arith, e), ground (arith, e)))

pub handle_pin-Complete : (args : MessageArgs) → Calls Complete (handle_pin args)
unfolding handle_pin
handle_pin-Complete args =
    refuse-Calls Answer Complete _ _ _ _ (λ e. (ground (arith, e), ground (arith, e)))

pub handle_react-Complete : (args : MessageArgs) → Calls Complete (handle_react args)
unfolding handle_react
handle_react-Complete args =
    refuse-Calls Answer Complete _ _ _ _
      (λ e. (ground (arith, e), ground (arith, e), ground (arith, e)))

pub handle_search-Complete : (args : MessageArgs) → Calls Complete (handle_search args)
unfolding handle_search
handle_search-Complete args = refuse-Calls Answer Complete _ _ _ _ (λ e. ground (arith, e))

pub handle_history-Complete : (args : MessageArgs) → Calls Complete (handle_history args)
unfolding handle_history
handle_history-Complete args = refuse-Calls Answer Complete _ _ _ _ (λ e. ground (arith, e))

pub unpin-Complete : (args : MessageArgs) → Calls Complete (unpin args)
unfolding unpin
unpin-Complete args =
    refuse-Calls Answer Complete _ _ _ _ (λ e. (ground (arith, e), ground (arith, e)))

pub unpin_all-Complete : (args : MessageArgs) → Calls Complete (unpin_all args)
unfolding unpin_all
unpin_all-Complete args = refuse-Calls Answer Complete _ _ _ _ (λ e. ground (arith, e))

pub pinned-Complete : (args : MessageArgs) → Calls Complete (pinned args)
unfolding pinned
pinned-Complete args = refuse-Calls Answer Complete _ _ _ _ (λ e. ground (arith, e))

pub read-Complete : (args : MessageArgs) → Calls Complete (read args)
unfolding read
read-Complete args = refuse-Calls Answer Complete _ _ _ _ (λ e. ground (arith, e))

pub context-Complete : (args : MessageArgs) → Calls Complete (context args)
unfolding context
context-Complete args =
    refuse-Calls Answer Complete _ _ _ _ (λ e. (ground (arith, e), ground (arith, e)))

pub link-Complete : (args : MessageArgs) → Calls Complete (link args)
unfolding link
link-Complete args =
    refuse-Calls Answer Complete _ _ _ _ (λ e. (ground (arith, e), ground (arith, e)))

pub reactions-Complete : (args : MessageArgs) → Calls Complete (reactions args)
unfolding reactions
reactions-Complete args =
    refuse-Calls Answer Complete _ _ _ _ (λ e. (ground (arith, e), ground (arith, e)))

pub delete_bulk-Complete : (args : MessageArgs) → Calls Complete (delete_bulk args)
unfolding delete_bulk
delete_bulk-Complete args =
    refuse-Calls Answer Complete _ _ _ _ (λ e. (ground (arith, e), ground (arith, e)))

pub purge-Complete : (args : MessageArgs) → Calls Complete (purge args)
unfolding purge
purge-Complete args = refuse-Calls Answer Complete _ _ _ _ (λ e. ground (arith, e))

pub forward_bulk-Complete : (args : MessageArgs) → Calls Complete (forward_bulk args)
unfolding forward_bulk
forward_bulk-Complete args =
    refuse-Calls Answer Complete _ _ _ _
      (λ e. (ground (arith, e), ground (arith, e), ground (arith, e)))

pub draft_save-Complete : (args : MessageArgs) → Calls Complete (draft_save args)
unfolding draft_save
draft_save-Complete args = refuse-Calls Answer Complete _ _ _ _ (λ e. ground (arith, e))

pub schedule_list-Complete : (args : MessageArgs) → Calls Complete (schedule_list args)
unfolding schedule_list
schedule_list-Complete args = refuse-Calls Answer Complete _ _ _ _ (λ e. ground (arith, e))

pub schedule_cancel-Complete : (args : MessageArgs) → Calls Complete (schedule_cancel args)
unfolding schedule_cancel
schedule_cancel-Complete args =
    refuse-Calls Answer Complete _ _ _ _ (λ e. (ground (arith, e), ground (arith, e)))

pub handle_answer-Complete : (args : MessageArgs) → Calls Complete (handle_answer args)
unfolding handle_answer
handle_answer-Complete args =
    if-Calls Answer Complete _ _ _ (λ e. done-Calls Answer Complete _)
      (λ e.
        if-Calls Answer Complete _ _ _ (λ h. done-Calls Answer Complete _)
          (λ h.
            ask-Calls Answer Complete
              (answer_callback_query args.callback_query_id args.answer_text _) _ (e, h)))

pub schedule-Complete :
    (parse_time : String → Option ℤ) (quote : String → String) (args : MessageArgs)
    → Calls Complete (schedule parse_time quote args)
unfolding schedule
schedule-Complete parse_time quote args =
    elim (Bool-cases (is_empty args.chat_id || str_eq args.content "" || str_eq args.send_at "")) [
      | inl e ↦ rw e (done-Calls Answer Complete _)
      | inr e ↦
          let given : Given args.chat_id × (str_eq args.content "" ≡ false) =
            (ground (arith, e), ground (arith, e)) in
          rw e (elim (Option-cases (parse_time args.send_at)) [
            | inl h ↦ rw h (done-Calls Answer Complete _)
            | inr (at, h) ↦ rw h (ask-Calls Answer Complete (schedule_message _ _ _) _ given)
          ])
    ]

pub handle_poll-Complete :
    (parse_time : String → Option ℤ) (quote : String → String) (args : MessageArgs)
    → Calls Complete (handle_poll parse_time quote args)
unfolding handle_poll
handle_poll-Complete parse_time quote args =
    elim (Bool-cases
      (is_empty args.chat_id || str_eq args.question "" || ltb (length args.options) 2)) [
        | inl e ↦ rw e (done-Calls Answer Complete _)
        | inr e ↦
            let given : Given args.chat_id
                × (str_eq args.question "" ≡ false)
                × (ltb (length args.options) 2 ≡ false) =
              (ground (arith, e), ground (arith, e), ground (arith, e)) in
            rw e (elim (Bool-cases (str_eq args.close_at "")) [
              | inl h ↦ rw h (ask-Calls Answer Complete (send_poll _ _ _ _) _ given)
              | inr h ↦ rw h (elim (Option-cases (parse_time args.close_at)) [
                | inl t ↦ rw t (done-Calls Answer Complete _)
                | inr (at, t) ↦ rw t (ask-Calls Answer Complete (send_poll _ _ _ _) _ given)
              ])
            ])
      ]
