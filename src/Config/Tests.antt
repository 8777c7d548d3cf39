-- ===== src/Config/Tests.antt =====
-- Runs of internal/config/config.go, and its theorems at concrete inputs.
use better_telegram_mcp.Base.{refl, false, none, List, [], ◌∷◌, String, if◌then◌else◌}
use better_telegram_mcp.Base.Int.{pos}
use better_telegram_mcp.Base.Text.{str_eq, trim_space}
use better_telegram_mcp.Base.Result.{err}
use better_telegram_mcp.Base.Dict
use better_telegram_mcp.Config.{
  Settings, Host, mode_user, load, env, env_api_id, env_session_lock, env_data_dir, read_settings,
  detect_mode, apply_saved, merge, saved_text, is_configured, has_user_credentials, has_session,
  trim_right_char,
}
use better_telegram_mcp.Config.Senders.{parse_senders}
use better_telegram_mcp.Config.Resolved.{ModeAgrees, resolve_settings, resolve_settings-ModeAgrees}

-- Only the data directory is set, and there is no file.
abbrev host : Host
host = record {
  getenv = λ key. if str_eq key "TELEGRAM_DATA_DIR" then " /data" else "";
  lower = λ s. s;
  join = λ a b. Prim.Native.String.◌++◌ a (Prim.Native.String.◌++◌ "/" b);
  home = err "no home";
  stat = λ path. none;
  quote = λ s. s;
}

abbrev saved : List (String × String)
saved = ("TELEGRAM_PHONE", "+100") ∷ []

abbrev signed_up : Settings
signed_up = record {
  bot_token = "";
  api_id = pos 37984984;
  api_hash = "2f5f4c76c4de7c07302380c788390100";
  phone = "+100";
  session_name = "default";
  data_dir = "/data";
  session_string = "";
  shared_session_lock = false;
  allowed_callback_senders = [];
  callback_data_pattern = "";
  callback_queue_file = "";
  resume_map_file = "";
  aliases_file = "";
  api_base = "";
  mode = mode_user;
}

resolve_settings-ModeAgrees_example : ModeAgrees host signed_up
unfolding resolve_settings load env env_api_id env_session_lock env_data_dir read_settings
    detect_mode apply_saved merge saved_text is_configured has_user_credentials has_session
    trim_right_char parse_senders trim_space Dict.lookup
resolve_settings-ModeAgrees_example = resolve_settings-ModeAgrees host saved signed_up refl
