-- ===== src/Server.antt =====
-- internal/server/server.go: the state of a server, the connection that comes up behind it, and the
-- test that every tool makes first. What Telegram and the store answer is an argument.
pub mod Connecting
pub mod Marking
pub mod Calls
pub mod Answers
mod Tests
pub mod Refresh
pub mod Setup
pub mod Reach
pub mod Guards
pub mod Liveness
use better_telegram_mcp.Base.{
  ℕ, suc, ◌+◌, ◌*◌, ◌≡◌, refl, Bool, true, false, not, ◌&&◌, Option, none, some, List, [], ◌∷◌,
  String, if◌then◌else◌,
}
use better_telegram_mcp.Base.Int.{ℤ, pos}
use better_telegram_mcp.Base.Dict
use better_telegram_mcp.Base.Result.{Result, ok, err}
use better_telegram_mcp.Value.{string_key}
use better_telegram_mcp.Results.{GoError}
use better_telegram_mcp.Config.{
  Settings, Host, Mode, mode_bot, mode_user, is_configured, load, apply_saved, session_path,
  callback_cursor_path, aliases_path,
}

-- telegram.BotOptions
pub record BotOptions : Type 0 where
  pub cursor_path : String
  pub queue_path : String
  pub resume_map_path : String
  pub aliases_path : String
  pub api_base : String

-- telegram.UserOptions
pub record UserOptions : Type 0 where
  pub api_id : ℤ
  pub api_hash : String
  pub session_path : String
  pub aliases_path : String
  pub session_string : String
  pub shared_lock : Bool
  pub api_base : String

-- A backend, by the arguments of NewBotBackend and NewUserBackend.
pub data Backend : Type 0 where
  bot_backend : String → BotOptions → Backend
  user_backend : UserOptions → Backend

-- Server. The credentials that `auth` saved stay in the store, and are an argument where they are
-- read.
pub record Server : Type 0 where
  pub settings : Settings
  pub backend : Option Backend
  pub configured : Bool
  pub pending_auth : Bool
  pub runtime : List (String × ℤ)
  pub connecting : Bool
  pub conn_err : Option GoError

-- What store.Load answers: nothing saved, or what was.
abbrev pub Saved : Type 0
Saved = Result GoError (Option (List (String × String)))

-- What Telegram makes of a backend's Connect: an error, or whether it is authorized.
abbrev pub Dial : Type 0
Dial = Backend → Result GoError Bool

abbrev pub is_user_mode : Mode → Bool
is_user_mode mode_bot = false
is_user_mode mode_user = true

module _ (host : Host) where
  -- The credentials of the environment, filled in by saved ones.
  unfoldable pub fill : Settings → Option (List (String × String)) → Settings
  fill s none = s
  fill s (some saved) = apply_saved host saved s

  -- What New does with the store's answer: a failure is left aside.
  ignoring : Settings → Saved → Settings
  unfolding fill
  ignoring s (err e) = s
  ignoring s (ok saved) = fill s saved

  -- New
  unfoldable pub new : Saved → Result GoError Server
  unfolding ignoring
  new saved = elim (load host) [
    | err e ↦ err e
    | ok loaded ↦
        let s = if is_configured host loaded then loaded else ignoring loaded saved in
        ok (record {
          settings = s;
          backend = none;
          configured = is_configured host s;
          pending_auth = false;
          runtime = ("message_limit", pos 20) ∷ ("timeout", pos 30) ∷ [];
          connecting = false;
          conn_err = none;
        })
  ]

  -- newBackend
  unfoldable pub new_backend : Settings → Backend
  new_backend s = elim s.mode [
    | mode_bot ↦ bot_backend s.bot_token (record {
      cursor_path = callback_cursor_path host s;
      queue_path = s.callback_queue_file;
      resume_map_path = s.resume_map_file;
      aliases_path = aliases_path host s;
      api_base = s.api_base;
    })
    | mode_user ↦ user_backend (record {
      api_id = s.api_id;
      api_hash = s.api_hash;
      session_path = session_path host s;
      aliases_path = aliases_path host s;
      session_string = s.session_string;
      shared_lock = s.shared_session_lock;
      api_base = s.api_base;
    })
  ]

  -- Connect, once the backend has answered: the state after it, and the error.
  unfoldable pub connected_to : Backend → Result GoError Bool → Server → Server × Option GoError
  connected_to b (err e) s = (s, some e)
  connected_to b (ok authorized) s = (
    record s {
      backend = some b;
      configured = true;
      pending_auth = is_user_mode s.settings.mode && not authorized;
    },
    none,
  )

  -- Connect
  unfoldable pub connect : Dial → Server → Server × Option GoError
  unfolding connected_to new_backend
  connect dial s =
      let b = new_backend s.settings in
      if is_configured host s.settings then connected_to b (dial b) s else (s, none)

  -- Close; whether a backend was disconnected is the second part.
  unfoldable pub close : Server → Server × Option Backend
  close s = (record s { backend = none }, s.backend)

  -- SetRuntimeValue
  unfoldable pub set_runtime_value : String → ℤ → Server → Server
  set_runtime_value key value s = record s { runtime = Dict.insert key value s.runtime }

  -- ResetCredentials, with what store.Clear answers
  unfoldable pub reset_credentials : Option GoError → Server → Server × Option GoError
  reset_credentials (some e) s = (s, some e)
  reset_credentials none s = (record s { configured = false }, none)

  -- The rest of RefreshCredentials, with the settings it has resolved.
  unfoldable pub adopt : Dial → Settings → Server → Server × Option GoError
  unfolding connect close
  adopt dial settings s =
      let closed = close (record s { settings = settings }) in
      let s' : Server = record closed.0 {
        configured = is_configured host settings;
        pending_auth = false;
      } in
      if is_configured host settings then connect dial s' else (s', none)

  -- RefreshCredentials
  unfoldable pub refresh_credentials : Dial → Saved → Server → Server × Option GoError
  unfolding adopt fill
  refresh_credentials dial saved s = elim (load host) [
    | err e ↦ (s, some e)
    | ok loaded ↦
        if is_configured host loaded
        then adopt dial loaded s
        else elim saved [ err e ↦ (s, some e) | ok found ↦ adopt dial (fill loaded found) s ]
  ]
