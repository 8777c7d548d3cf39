-- ===== src/Config.antt =====
-- internal/config/config.go: the settings of a server, read from the environment and from the
-- credentials that `auth` saved.
pub mod Senders
pub mod Resolved
mod Tests
use Prim.Native.Char.{code}
use Prim.Native.String.{[] as empty, ◌∷◌ as char}
use better_telegram_mcp.Base.{
  ℕ, ◌≡◌, refl, Bool, true, false, not, ◌&&◌, ◌||◌, Option, none, some, List, [], ◌∷◌, String, ltb,
  ◌==◌, if◌then◌else◌,
}
use better_telegram_mcp.Base.Int.{ℤ, pos, eqb_ℤ}
use better_telegram_mcp.Base.Text.{str_eq, trim_space}
use better_telegram_mcp.Base.Result.{Result, ok, err, ◌>>=◌}
use better_telegram_mcp.Base.Dict
use better_telegram_mcp.Results.{GoError, errorf, wrap_error}
use better_telegram_mcp.Value.{parse_int, string_key}
use better_telegram_mcp.Config.Senders.{parse_senders}

pub data Mode : Type 0 where
  mode_bot : Mode
  mode_user : Mode

-- Settings
pub record Settings : Type 0 where
  pub bot_token : String
  pub api_id : ℤ
  pub api_hash : String
  pub phone : String
  pub session_name : String
  pub data_dir : String
  pub session_string : String
  pub shared_session_lock : Bool
  pub allowed_callback_senders : List ℤ
  pub callback_data_pattern : String
  pub callback_queue_file : String
  pub resume_map_file : String
  pub aliases_file : String
  pub api_base : String
  pub mode : Mode

-- What the process finds around it: os.Getenv, strings.ToLower, filepath.Join of two parts,
-- os.UserHomeDir, the size of a file when os.Stat finds it, and fmt's %q.
pub record Host : Type 0 where
  pub getenv : String → String
  pub lower : String → String
  pub join : String → String → String
  pub home : Result String String
  pub stat : String → Option ℕ
  pub quote : String → String

abbrev pub is_unset_text : String → Bool
is_unset_text s = str_eq s ""

-- strings.TrimRight(s, c) for one character
unfoldable pub trim_right_char : ℕ → String → String
trim_right_char k empty = empty
trim_right_char k (char c s) =
    let rest = trim_right_char k s in
    if code c == k && is_unset_text rest then empty else char c rest

abbrev append : String → String → String
append = Prim.Native.String.◌++◌

-- saved[key], "" where it is missing
unfoldable pub saved_text : String → List (String × String) → String
saved_text key saved = elim (Dict.lookup key saved) [ none ↦ "" | some s ↦ s ]

module _ (host : Host) where
  -- env
  unfoldable pub env : String → String
  env key = trim_space (host.getenv key)

  -- SessionPath
  unfoldable pub session_path : Settings → String
  session_path s = host.join s.data_dir (append s.session_name ".session")

  -- CallbackCursorPath
  unfoldable pub callback_cursor_path : Settings → String
  callback_cursor_path s = host.join s.data_dir (append s.session_name ".callbacks.json")

  -- AliasesPath
  unfoldable pub aliases_path : Settings → String
  aliases_path s =
      if is_unset_text s.aliases_file then host.join s.data_dir "aliases.json" else s.aliases_file

  -- hasSession
  unfoldable pub has_session : Settings → Bool
  unfolding session_path
  has_session s = elim (host.stat (session_path s)) [ none ↦ false | some size ↦ ltb 0 size ]

  -- hasUserCredentials
  unfoldable pub has_user_credentials : Settings → Bool
  unfolding has_session
  has_user_credentials s =
      if eqb_ℤ s.api_id (pos 0) || is_unset_text s.api_hash
      then false
      else not (is_unset_text s.phone) || not (is_unset_text s.session_string) || has_session s

  -- IsConfigured
  unfoldable pub is_configured : Settings → Bool
  unfolding has_user_credentials
  is_configured s = not (is_unset_text s.bot_token) || has_user_credentials s

  -- detectMode
  unfoldable pub detect_mode : Settings → Settings
  unfolding has_user_credentials
  detect_mode s =
      if not (is_unset_text s.bot_token)
      then record s { mode = mode_bot }
      else if has_user_credentials s
      then record s { mode = mode_user }
      else s

  -- TELEGRAM_API_ID
  unfoldable pub env_api_id : String → Result GoError ℤ
  env_api_id raw = if is_unset_text raw then ok (pos 37984984) else elim (parse_int raw) [
    | none ↦ err (errorf (append "TELEGRAM_API_ID must be an integer, got " (host.quote raw)))
    | some id ↦ ok id
  ]

  -- TELEGRAM_SESSION_LOCK
  unfoldable pub env_session_lock : String → Result GoError Bool
  env_session_lock raw =
      let lock = host.lower raw in
      if str_eq lock "" || str_eq lock "exclusive"
      then ok false
      else if str_eq lock "shared"
      then ok true
      else err (
          errorf (
            append "TELEGRAM_SESSION_LOCK must be 'exclusive' (the default) or 'shared', got "
              (host.quote raw)))

  -- TELEGRAM_DATA_DIR
  unfoldable pub env_data_dir : String → Result GoError String
  env_data_dir raw =
      if is_unset_text raw
      then elim host.home [
        | err e ↦ err (wrap_error (append "cannot resolve home directory: " e))
        | ok home ↦ ok (host.join home ".better-telegram-mcp")
      ]
      else ok raw

  or_default : String → String → String
  or_default raw fallback = if is_unset_text raw then fallback else raw

  -- What Load makes of the values that it has parsed, before it calls detectMode.
  unfoldable pub read_settings : ℤ → Bool → String → List ℤ → Settings
  unfolding env or_default trim_right_char
  read_settings id shared dir senders = record {
    bot_token = env "TELEGRAM_BOT_TOKEN";
    api_id = id;
    api_hash = or_default (env "TELEGRAM_API_HASH") "2f5f4c76c4de7c07302380c788390100";
    phone = env "TELEGRAM_PHONE";
    session_name = or_default (env "TELEGRAM_SESSION_NAME") "default";
    data_dir = dir;
    session_string = env "TELEGRAM_SESSION_STRING";
    shared_session_lock = shared;
    allowed_callback_senders = senders;
    callback_data_pattern = env "TELEGRAM_CALLBACK_DATA_PATTERN";
    callback_queue_file = env "TELEGRAM_CALLBACK_QUEUE_FILE";
    resume_map_file = env "TELEGRAM_RESUME_MAP_FILE";
    aliases_file = env "TELEGRAM_ALIASES_FILE";
    api_base = trim_right_char b'/' (env "TELEGRAM_API_BASE");
    mode = mode_bot;
  }

  -- Load
  unfoldable pub load : Result GoError Settings
  unfolding read_settings detect_mode env_api_id env_session_lock env_data_dir
  load = env_api_id (env "TELEGRAM_API_ID") >>= (λ id.
      env_session_lock (env "TELEGRAM_SESSION_LOCK") >>= (λ shared.
        env_data_dir (env "TELEGRAM_DATA_DIR") >>= (λ dir.
          parse_senders host.quote (env "TELEGRAM_ALLOWED_CALLBACK_SENDERS")
          >>= (λ senders. ok (detect_mode (read_settings id shared dir senders))))))

  saved_api_id : List (String × String) → ℤ → ℤ
  saved_api_id saved id =
      if is_unset_text (env "TELEGRAM_API_ID")
        && not (is_unset_text (saved_text "TELEGRAM_API_ID" saved))
      then elim (parse_int (saved_text "TELEGRAM_API_ID" saved)) [ none ↦ id | some n ↦ n ]
      else id

  saved_api_hash : List (String × String) → String → String
  saved_api_hash saved hash =
      if is_unset_text (env "TELEGRAM_API_HASH")
      then or_default (saved_text "TELEGRAM_API_HASH" saved) hash
      else hash

  -- ApplySaved, before it calls detectMode
  unfoldable pub merge : List (String × String) → Settings → Settings
  unfolding saved_text saved_api_id saved_api_hash or_default
  merge saved s = record s {
    bot_token = or_default s.bot_token (saved_text "TELEGRAM_BOT_TOKEN" saved);
    phone = or_default s.phone (saved_text "TELEGRAM_PHONE" saved);
    session_string = or_default s.session_string (saved_text "TELEGRAM_SESSION_STRING" saved);
    api_id = saved_api_id saved s.api_id;
    api_hash = saved_api_hash saved s.api_hash;
  }

  -- ApplySaved
  unfoldable pub apply_saved : List (String × String) → Settings → Settings
  unfolding detect_mode merge
  apply_saved saved s = detect_mode (merge saved s)
