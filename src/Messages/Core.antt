-- ===== src/Messages/Core.antt =====
-- internal/tools/messages.go: the actions that both backends serve.
use better_telegram_mcp.Base.{
  Bool, true, false, ◌&&◌, ◌||◌, Option, none, some, List, [], ◌∷◌, if◌then◌else◌, ltb,
}
use better_telegram_mcp.Base.Int.{pos}
use better_telegram_mcp.Base.Text.{str_eq, rune_count}
use better_telegram_mcp.Base.Dict
use better_telegram_mcp.Value.{
  Value, nil, bool, list, Items, stop, cons, Map, get, as_int, is_empty, string_key,
}
use better_telegram_mcp.Results.{err_result}
use better_telegram_mcp.Messages.{
  MessageArgs, Program, answered, ask, counted, flag, limit_or, is_unset, send_message,
  edit_message, edit_message_buttons, delete_message, forward_message, pin_message,
  react_to_message, search_messages, get_history, answer_callback_query, record_resume_session,
  done, call,
}

abbrev value_items : List Value → Items
value_items [] = stop
value_items (v ∷ vs) = cons v (value_items vs)

-- optionalButtons
unfoldable pub optional_buttons : Option (List Value) → Value
optional_buttons none = nil
optional_buttons (some vs) = list (value_items vs)

-- anySlice: no buttons and an empty slice are both an empty slice.
unfoldable pub any_slice : Option (List Value) → Value
any_slice none = list stop
any_slice (some vs) = list (value_items vs)

abbrev pub is_missing : Option (List Value) → Bool
is_missing none = true
is_missing (some vs) = false

-- handleSend after SendMessage has answered
unfoldable pub register : MessageArgs → Map → Program
register args result =
    if str_eq args.resume_session "" then done result else elim (as_int (get "message_id" result)) [
      | none ↦ done (Dict.insert "resume_registered" (bool false) result)
      | some id ↦
          call (record_resume_session args.chat_id id args.resume_session) (
            answered
              (λ registered. done (Dict.insert "resume_registered" (bool registered) result)))
    ]

-- handleSend
unfoldable pub handle_send : MessageArgs → Program
unfolding register
handle_send args =
    if is_empty args.chat_id || str_eq args.content ""
    then done (
        err_result
          "'send' requires chat_id and text. chat_id: positive int (user), negative int (group), or @username. Optional parse_mode: HTML, MarkdownV2, or Markdown. Optional buttons: [[{\"text\": \"Yes\", \"data\": \"DEC-12:yes\"}]].")
    else call
        (send_message args.chat_id args.content args.reply_to args.parse_mode
          (optional_buttons args.buttons))
        (answered (register args))

-- handleEdit
unfoldable pub handle_edit : MessageArgs → Program
handle_edit args =
    if is_empty args.chat_id
      || is_unset args.message_id
      || (str_eq args.content "" && is_missing args.buttons)
    then done (
        err_result
          "'edit' requires chat_id, message_id, and text and/or buttons. Optional parse_mode: HTML, MarkdownV2, or Markdown. buttons=[] strips the inline keyboard from the message.")
    else if str_eq args.content ""
    then ask (edit_message_buttons args.chat_id args.message_id (any_slice args.buttons)) (λ r. r)
    else ask
        (edit_message args.chat_id args.message_id args.content args.parse_mode
          (optional_buttons args.buttons))
        (λ r. r)

-- handleDelete
unfoldable pub handle_delete : MessageArgs → Program
handle_delete args =
    if is_empty args.chat_id || is_unset args.message_id
    then done (err_result "'delete' requires chat_id and message_id")
    else ask (delete_message args.chat_id args.message_id) (flag "deleted")

-- handleForward
unfoldable pub handle_forward : MessageArgs → Program
handle_forward args =
    if is_empty args.from_chat || is_empty args.to_chat || is_unset args.message_id
    then done (err_result "'forward' requires from_chat, to_chat, and message_id")
    else ask (forward_message args.from_chat args.to_chat args.message_id) (λ r. r)

-- handlePin
unfoldable pub handle_pin : MessageArgs → Program
handle_pin args =
    if is_empty args.chat_id || is_unset args.message_id
    then done (err_result "'pin' requires chat_id and message_id")
    else ask (pin_message args.chat_id args.message_id) (flag "pinned")

-- handleReact
unfoldable pub handle_react : MessageArgs → Program
handle_react args =
    if is_empty args.chat_id || is_unset args.message_id || str_eq args.emoji ""
    then done (err_result "'react' requires chat_id, message_id, and emoji")
    else ask (react_to_message args.chat_id args.message_id args.emoji) (flag "reacted")

-- handleSearch
unfoldable pub handle_search : MessageArgs → Program
handle_search args =
    if str_eq args.query ""
    then done (err_result "'search' requires query")
    else ask (search_messages args.query args.chat_id (limit_or (pos 20) args)) (counted "messages")

-- handleHistory
unfoldable pub handle_history : MessageArgs → Program
handle_history args =
    if is_empty args.chat_id
    then done (err_result "'history' requires chat_id")
    else ask (get_history args.chat_id (limit_or (pos 20) args) args.offset_id) (counted "messages")

-- handleAnswer
unfoldable pub handle_answer : MessageArgs → Program
handle_answer args =
    if str_eq args.callback_query_id ""
    then done (
        err_result
          "'answer' requires callback_query_id (from a 'callbacks' result). Optional answer_text (<=200 chars) and show_alert.")
    else if ltb 200 (rune_count args.answer_text)
    then done (err_result "answer_text exceeds 200 characters")
    else ask (answer_callback_query args.callback_query_id args.answer_text args.show_alert)
        (flag "answered")
