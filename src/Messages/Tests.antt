-- ===== src/Messages/Tests.antt =====
-- Runs of the handlers of the `message` tool, and their theorems at concrete inputs.
use better_telegram_mcp.Base.{refl, true, false, none, some, [], ◌∷◌, String}
use better_telegram_mcp.Base.Int.{pos}
use better_telegram_mcp.Base.Result.{Result, err}
use better_telegram_mcp.Value.{nil, int, text, object, field, end, Map}
use better_telegram_mcp.Messages.{MessageArgs}
use better_telegram_mcp.Programs.Calls.{Calls, Ends}
use better_telegram_mcp.Messages.Checked.{Complete}
use better_telegram_mcp.Messages.Complete.{handle_message-Complete}
use better_telegram_mcp.Messages.Presses.{Allowed, handle_callbacks-Allowed}
use better_telegram_mcp.Messages.Report.{read_with, Reports, poll_presses-Reports}
use better_telegram_mcp.Messages.Callbacks.{handle_callbacks, poll_presses}
use better_telegram_mcp.Messages.Dispatch.{Env, handle_message}

abbrev args : MessageArgs
args = record {
  action = "callbacks";
  chat_id = nil;
  content = "";
  message_id = pos 0;
  reply_to = pos 0;
  parse_mode = "";
  from_chat = nil;
  to_chat = nil;
  emoji = "";
  query = "";
  limit = pos 0;
  offset_id = pos 0;
  message_ids = [];
  around = pos 0;
  revoke = false;
  question = "";
  options = [];
  multiple_choice = false;
  anonymous = none;
  quiz = false;
  close_at = "";
  send_at = "";
  buttons = none;
  since_id = some (pos 4);
  callback_query_id = "";
  answer_text = "";
  show_alert = false;
  auto_answer = none;
  allowed_from_ids = none;
  data_pattern = "";
  resume_session = "";
  peek = false;
}

abbrev no_patterns : String → Result String (String → String)
no_patterns s = err s

abbrev env : Env
env = record {
  lower = λ s. s;
  parse_time = λ s. none;
  quote = λ s. s;
  compile = no_patterns;
  iso = λ t. "";
  polled_at = "";
}

abbrev press : Map
press =
    ("update_id", int (pos 7))
    ∷ ("callback_query", object (field "id" (text "q") (field "data" (text "yes") end)))
    ∷ []

handle_message-Complete_example : Calls Complete (
    handle_message env true
      (record args { action = "delete"; chat_id = text "@a"; message_id = pos 5 }))
handle_message-Complete_example =
    handle_message-Complete env true
      (record args { action = "delete"; chat_id = text "@a"; message_id = pos 5 })

handle_callbacks-Allowed_example : Allowed args (handle_callbacks no_patterns (λ t. "") "" args)
handle_callbacks-Allowed_example = handle_callbacks-Allowed no_patterns (λ t. "") "" args

poll_presses-Reports_example :
    Ends
      (Reports (press ∷ []) (some (pos 4)))
      (read_with (press ∷ []) (poll_presses no_patterns (λ t. "") "" args none))
poll_presses-Reports_example =
    poll_presses-Reports no_patterns (λ t. "") "" args none (press ∷ []) refl
