-- ===== src/Server/Setup.antt =====
-- internal/server/server.go: the methods of Server that the `config` tool uses, tools.ServerState.
use better_telegram_mcp.Base.{◌≡◌, refl, Option, none, some, String, if◌then◌else◌}
use better_telegram_mcp.Base.Int.{ℤ}
use better_telegram_mcp.Base.Dict
use better_telegram_mcp.Value.{Map, string_key}
use better_telegram_mcp.Results.{GoError}
use better_telegram_mcp.Config.{Host}
use better_telegram_mcp.Tools.Setup.{
  ConfigArgs, BackendStatus, ServerState, generic_form, handle_set,
}
use better_telegram_mcp.Tools.Setup.Keys.{asked, handle_set-asked}
use better_telegram_mcp.Server.{
  Server, Backend, Dial, Saved, set_runtime_value, reset_credentials, refresh_credentials,
}

-- CredentialState
unfoldable pub credential_state : Server → String
credential_state s = if s.configured then "configured" else "awaiting_setup"

-- `describe` is what a backend answers of itself, `cleared` what store.Clear answers.
module _ (host : Host) (describe : Backend → BackendStatus) (dial : Dial) (saved : Saved)
    (cleared : Option GoError) where
  -- Backend, Configured, PendingAuth, CredentialState, RuntimeConfig, SetRuntimeValue,
  -- ResetCredentials and RefreshCredentials
  unfoldable pub server_state : ServerState Server
  unfolding credential_state set_runtime_value reset_credentials refresh_credentials
  server_state = record {
    backend = λ s. elim s.backend [ none ↦ none | some b ↦ some (describe b) ];
    configured = λ s. s.configured;
    pending_auth = λ s. s.pending_auth;
    credential_state = credential_state;
    runtime_config = λ s. s.runtime;
    set_runtime_value = set_runtime_value host;
    reset_credentials = reset_credentials host cleared;
    refresh_credentials = refresh_credentials host dial saved;
  }

  stored :
      (k : String) (n : ℤ) (s : Server)
      → server_state.runtime_config (server_state.set_runtime_value k n s)
        ≡ Dict.insert k n (server_state.runtime_config s)
  unfolding server_state set_runtime_value
  stored k n s = refl

  -- When the generic form is well formed, config(action="set") leaves every limit of the server as it
  -- was, but for the keys it names; where the generic form and a named parameter name the same key,
  -- the named parameter counts.
  pub handle_set-runtime :
      (lower quote : String → String) (args : ConfigArgs) (s : Server) (key : String)
      (value : Option ℤ) (m : Map)
      → generic_form lower quote server_state args ≡ (some value, m)
      → Dict.lookup key (handle_set lower quote server_state args s).1.runtime
        ≡ asked args value key (Dict.lookup key s.runtime)
  unfolding server_state
  handle_set-runtime lower quote args s key value m h =
      handle_set-asked lower quote server_state stored args s key value m h
