-- ===== src/Server/Tests.antt =====
-- Runs of internal/server/server.go, and its theorems at concrete inputs.
use better_telegram_mcp.Base.{
  ℕ, ◌≡◌, ◌≤◌, refl, Bool, true, false, none, some, List, [], ◌∷◌, String, ◌*◌,
}
use better_telegram_mcp.Base.Int.{pos}
use better_telegram_mcp.Base.Result.{Result, ok, err}
use better_telegram_mcp.Base.Dict
use better_telegram_mcp.Value.{
  string_key, nil, int, text, object, field, end, Map, parse_int, get, as_int,
}
use better_telegram_mcp.Results.{GoError, busy_error, err_result, errorf}
use better_telegram_mcp.Config.{
  Settings, Host, mode_bot, is_configured, load, env, env_api_id, env_session_lock, env_data_dir,
  read_settings, detect_mode, apply_saved, merge, saved_text, has_user_credentials, has_session,
  trim_right_char,
}
use better_telegram_mcp.Config.Senders.{parse_senders}
use better_telegram_mcp.Base.Text.{trim_space, rune_count}
use better_telegram_mcp.Messages.{
  MessageArgs, Call, Answer, get_history, get_callback_queries, limit_or,
}
use better_telegram_mcp.Messages.Callbacks.{
  normalize_callback, numeric, entries_of, poll_presses, handle_callbacks, each, rejection_reason,
  is_elsewhere, acknowledge, is_due, ask_session, report, advance,
}
use better_telegram_mcp.Messages.Guards.{Handed}
use better_telegram_mcp.Messages.Dispatch.{Env, handle_message}
use better_telegram_mcp.Tools.Setup.{
  ConfigArgs, BackendStatus, ServerState, generic_form, handle_set, set_values,
}
use better_telegram_mcp.Tools.Setup.Keys.{asked, handle_set-error}
use better_telegram_mcp.Programs.{Program, done, call, answered, run, counted}
use better_telegram_mcp.Server.{Server, Backend, Saved, new_backend, close, refresh_credentials}
use better_telegram_mcp.Server.Connecting.{
  second, connect_retry_cap, first_backoff, Turn, connect_loop, start_connect,
}
use better_telegram_mcp.Server.Liveness.{
  total_gap, connect_loop-total_gap, up, connect_loop-up, connect_loop-gives_up,
}
use better_telegram_mcp.Server.Reach.{
  World, begins, goes_on, starts, closes, trying, WorldIsSteady, Reach-WorldIsSteady,
}
use better_telegram_mcp.Server.Marking.{Marked, is_error, external, mark_external}
use better_telegram_mcp.Server.Calls.{ready, guarded, answer_call, message_tool}
use better_telegram_mcp.Server.Answers.{payload, answer_call-Marked, answer_call-unready}
use better_telegram_mcp.Server.Guards.{message_tool-Handed}
use better_telegram_mcp.Server.Refresh.{StandsBy, refreshed_settings, refresh_credentials-Refreshed}
use better_telegram_mcp.Server.Setup.{server_state, handle_set-runtime}

abbrev host : Host
host = record {
  getenv = λ key. "";
  lower = λ s. s;
  join = λ a b. Prim.Native.String.◌++◌ a b;
  home = ok "/home/a";
  stat = λ path. none;
  quote = λ s. s;
}

abbrev settings : Settings
settings = record {
  bot_token = "1:a";
  api_id = pos 1;
  api_hash = "";
  phone = "";
  session_name = "default";
  data_dir = "/data";
  session_string = "";
  shared_session_lock = false;
  allowed_callback_senders = pos 7 ∷ [];
  callback_data_pattern = "";
  callback_queue_file = "";
  resume_map_file = "";
  aliases_file = "";
  api_base = "";
  mode = mode_bot;
}

abbrev fresh : Server
fresh = record {
  settings = settings;
  backend = none;
  configured = true;
  pending_auth = false;
  runtime = ("message_limit", pos 20) ∷ ("timeout", pos 30) ∷ [];
  connecting = false;
  conn_err = none;
}

abbrev unreachable : GoError
unreachable = errorf "unreachable"

abbrev busy : GoError
busy = record { kind = busy_error; message = "busy"; type_name = "*telegram.SessionBusyError" }

abbrev turn : Result GoError Bool → Turn
turn r = record { dial = λ b. r; cancelled = false; interrupted = false }

fresh-is_configured : is_configured host settings ≡ true
unfolding is_configured
fresh-is_configured = refl

abbrev outage : List Turn
outage = turn (err unreachable) ∷ turn (err unreachable) ∷ turn (err unreachable) ∷ []

connect_loop-total_gap_example :
    let r = connect_loop host outage first_backoff 0 fresh in
    (r.over ≡ false) × (r.waited ≡ 14 * second)
unfolding total_gap
connect_loop-total_gap_example = connect_loop-total_gap host outage fresh fresh-is_configured (
  (unreachable, refl, refl, refl, refl),
  ((unreachable, refl, refl, refl, refl), ((unreachable, refl, refl, refl, refl), tt)),
)

connect_loop-up_example :
    let r =
      connect_loop host (turn (err unreachable) ∷ turn (ok true) ∷ []) first_backoff 0 fresh in
    (r.over ≡ true) × (r.server ≡ up host true fresh) × (r.waited ≤ 1 * connect_retry_cap)
connect_loop-up_example =
    connect_loop-up host (turn (err unreachable) ∷ []) [] (turn (ok true)) true fresh
      fresh-is_configured ((unreachable, refl, refl, refl, refl), tt) refl

connect_loop-gives_up_example :
    let r =
      connect_loop host (turn (err unreachable) ∷ turn (err busy) ∷ []) first_backoff 0 fresh in
    (r.over ≡ true) × (r.server ≡ record fresh { connecting = false; conn_err = some busy })
connect_loop-gives_up_example =
    connect_loop-gives_up host (turn (err unreachable) ∷ []) [] (turn (err busy)) busy fresh
      fresh-is_configured ((unreachable, refl, refl, refl, refl), tt) (refl, refl)

abbrev started : World
started = record {
  server = (start_connect host fresh).0;
  loop = trying first_backoff;
  refreshing = [];
}

Reach-WorldIsSteady_example :
    WorldIsSteady (record started { server = (close host started.server).0 })
Reach-WorldIsSteady_example =
    Reach-WorldIsSteady host fresh (record started { server = (close host started.server).0 }) refl
      (goes_on (goes_on begins (starts fresh [] fresh-is_configured)) (closes started))

abbrev encode : Map → String
encode m = "{}"

abbrev quiet : Backend → (c : Call) → Bool → Result GoError (Answer c) × Bool
quiet b c sent = (err unreachable, true)

abbrev handler : Backend → Program Call Answer
handler b = call (get_history (text "@a") (pos 20) (pos 0)) (answered (λ messages. done []))

answer_call-Marked_example :
    Marked
      (payload encode quiet "message" handler (ok (new_backend host settings)) false)
      (answer_call encode quiet "message" handler
        (ok (new_backend host settings))
        false).0.structured
answer_call-Marked_example =
    answer_call-Marked encode quiet "message" handler (ok (new_backend host settings)) false

answer_call-unready_example :
    let (result, y) = answer_call encode quiet "message" handler (ready fresh) false in
    (y ≡ false) × (m : Map) × (is_error m ≡ true) × (result.content ≡ encode m)
answer_call-unready_example = answer_call-unready encode quiet "message" handler fresh false refl

-- What `auth` saved, and the settings with it.
abbrev saved : Saved
saved = ok (some (("TELEGRAM_BOT_TOKEN", "2:b") ∷ []))

abbrev signed_up : Settings
signed_up = record settings {
  bot_token = "2:b";
  api_id = pos 37984984;
  api_hash = "2f5f4c76c4de7c07302380c788390100";
  data_dir = "/home/a.better-telegram-mcp";
  allowed_callback_senders = [];
}

-- The new settings are the saved ones, and Telegram accepts the bot.
refresh_credentials-Refreshed_example :
    StandsBy host (λ b. ok true) signed_up (refresh_credentials host (λ b. ok true) saved fresh)
unfolding refreshed_settings load env env_api_id env_session_lock env_data_dir read_settings
    detect_mode apply_saved merge saved_text is_configured has_user_credentials has_session
    trim_right_char parse_senders trim_space Dict.lookup
refresh_credentials-Refreshed_example =
    refresh_credentials-Refreshed host (λ b. ok true) saved fresh

abbrev describe : Backend → BackendStatus
describe b = record { mode = "bot"; connected = true; authorized = true; cleared = none }

abbrev set_args : ConfigArgs
set_args = record {
  action = "set";
  message_limit = none;
  timeout = some (pos 5);
  key = "timeout";
  value = "9";
}

abbrev state : ServerState Server
state = server_state host describe (λ b. ok true) (ok none) none

handle_set-runtime_example :
    Dict.lookup "timeout" (handle_set (λ s. s) (λ s. s) state set_args fresh).1.runtime
    ≡ asked set_args (some (pos 9)) "timeout" (Dict.lookup "timeout" fresh.runtime)
unfolding generic_form parse_int
handle_set-runtime_example =
    handle_set-runtime host describe (λ b. ok true) (ok none) none (λ s. s) (λ s. s) set_args fresh
      "timeout" (some (pos 9)) [] refl

handle_set-error_example :
    (handle_set (λ s. s) (λ s. s) state (record set_args { value = "" }) fresh).1 ≡ fresh
unfolding handle_set generic_form set_values err_result Dict.lookup
handle_set-error_example =
    handle_set-error (λ s. s) (λ s. s) state (record set_args { value = "" }) fresh
      (text "set (generic form) requires both key and value") refl

abbrev args : MessageArgs
args = record {
  action = "callbacks";
  chat_id = nil;
  content = "";
  message_id = pos 0;
  reply_to = pos 0;
  parse_mode = "";
  from_chat = nil;
  to_chat = nil;
  emoji = "";
  query = "";
  limit = pos 0;
  offset_id = pos 0;
  message_ids = [];
  around = pos 0;
  revoke = false;
  question = "";
  options = [];
  multiple_choice = false;
  anonymous = none;
  quiz = false;
  close_at = "";
  send_at = "";
  buttons = none;
  since_id = some (pos 4);
  callback_query_id = "";
  answer_text = "";
  show_alert = false;
  auto_answer = none;
  allowed_from_ids = none;
  data_pattern = "";
  resume_session = "";
  peek = false;
}

abbrev no_patterns : String → Result String (String → String)
no_patterns s = err s

abbrev setting : Env
setting = record {
  lower = λ s. s;
  parse_time = λ s. none;
  quote = λ s. s;
  compile = no_patterns;
  iso = λ t. "";
  polled_at = "";
}

-- A press, by its sender.
abbrev press : ℕ → Map
press sender =
    ("update_id", int (pos sender))
    ∷ (
      "callback_query",
      object (
          field "id" (text "q") (
            field "data" (text "yes")
              (field "from" (object (field "id" (int (pos sender)) end)) end))),
    )
    ∷ []

-- Telegram answers a read with a press of the operator's sender and one of a stranger.
abbrev telegram : Backend → (c : Call) → Bool → Result GoError (Answer c) × Bool
telegram b (get_callback_queries since limit consume) x = (ok (press 7 ∷ press 8 ∷ []), true)
telegram b c x = (err unreachable, x)

abbrev connected : Server
connected = record fresh { backend = some (new_backend host settings) }

message_tool-Handed_example :
    Handed (pos 7 ∷ []) (message_tool encode setting telegram connected args false).0.structured
message_tool-Handed_example = message_tool-Handed encode setting telegram connected args false refl

-- Of the two presses one is handed over, and one is ignored.
presses_of_senders :
    let result = (message_tool encode setting telegram connected args false).0.structured in
    (get "count" result ≡ int (pos 1)) × (get "ignored_count" result ≡ int (pos 1))
unfolding message_tool answer_call ready guarded handle_message handle_callbacks poll_presses
    entries_of normalize_callback numeric each rejection_reason is_elsewhere acknowledge is_due
    ask_session report counted run external mark_external Dict.insert Dict.lookup get as_int
    limit_or advance rune_count
presses_of_senders = (refl, refl)
