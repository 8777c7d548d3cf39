-- ===== src/Tools/Setup.antt =====
-- internal/tools/config.go: the `config` tool over the state of a server, which the server gives it
-- as an interface, and the answer of a server that is not ready.
pub mod Keys
use better_telegram_mcp.Base.{
  ◌≡◌, refl, Bool, true, false, not, ◌&&◌, ◌||◌, Option, none, some, List, [], ◌∷◌, String,
  if◌then◌else◌,
}
use better_telegram_mcp.Base.Int.{ℤ}
use better_telegram_mcp.Base.Dict
use better_telegram_mcp.Base.Text.{str_eq, contains}
use better_telegram_mcp.Value.{
  Value, nil, bool, int, text, object, Fields, end, field, Map, to_fields, parse_int, string_key,
}
use better_telegram_mcp.Results.{
  GoError, err_result, safe_error, closest_match, suggestion, join_bars, unknown_action,
}

-- ConfigArgs
pub record ConfigArgs : Type 0 where
  pub action : String
  pub message_limit : Option ℤ
  pub timeout : Option ℤ
  pub key : String
  pub value : String

-- What a connected backend answers to Mode, IsConnected, IsAuthorized and ClearCache.
pub record BackendStatus : Type 0 where
  pub mode : String
  pub connected : Bool
  pub authorized : Bool
  pub cleared : Option GoError

-- ServerState, over the state S of a server
pub record ServerState (S : Type 0) : Type 0 where
  pub backend : S → Option BackendStatus
  pub configured : S → Bool
  pub pending_auth : S → Bool
  pub credential_state : S → String
  pub runtime_config : S → List (String × ℤ)
  pub set_runtime_value : String → ℤ → S → S
  pub reset_credentials : S → S × Option GoError
  pub refresh_credentials : S → S × Option GoError

abbrev pub settable_keys : List String
settable_keys = "message_limit" ∷ "timeout" ∷ []

abbrev config_actions : List String
config_actions =
    "status" ∷ "set" ∷ "cache_clear" ∷ "setup_status" ∷ "setup_start" ∷ "setup_reset"
    ∷ "setup_complete" ∷ []

-- setupInstructions
unfoldable pub setup_instructions : Value
setup_instructions = object (
    field "bot_mode"
      (object (
        field "command" (text "better-telegram-mcp auth --bot-token <token>") (
          field "env_var" (text "TELEGRAM_BOT_TOKEN")
            (field "how" (text "Get a token from @BotFather on Telegram") end))))
      (field "user_mode"
        (object (
          field "command" (text "better-telegram-mcp auth --phone +<country><number>") (
            field "env_var" (text "TELEGRAM_PHONE") (
              field "how"
                (text
                  "Runs the interactive OTP (and 2FA) flow in a terminal and stores the MTProto session locally")
                end))))
        end))

-- a map[string]int inside a result
unfoldable pub int_fields : List (String × ℤ) → Fields
int_fields [] = end
int_fields ((k, n) ∷ rest) = field k (int n) (int_fields rest)

-- NotReady, by what the state says of its credentials
unfoldable pub not_ready : Bool → Map
unfolding setup_instructions
not_ready configured =
    if configured
    then err_result
        "Telegram session not authenticated. Run `better-telegram-mcp auth --phone +<number>` to sign in, then config(action='setup_complete')."
    else ("error", text "Not configured")
      ∷ ("setup", setup_instructions)
      ∷ ("hint", text "Use config(action='setup_start') for the exact command to run.")
      ∷ []

-- OpenRelay
unfoldable pub open_relay : Map
unfolding setup_instructions
open_relay =
    ("status", text "stdio_only")
    ∷ (
      "message",
      text
          "This build serves stdio only and has no browser relay. Authenticate locally with `better-telegram-mcp auth --bot-token <token>` or `better-telegram-mcp auth --phone +<number>`.",
    )
    ∷ ("setup", setup_instructions)
    ∷ []

abbrev append : String → String → String
append = Prim.Native.String.◌++◌

module _ (lower quote : String → String) {S : Type 0} (state : ServerState S) where
  invalid_key : String → Map
  unfolding closest_match join_bars suggestion
  invalid_key key = err_result (
      append "Invalid key: " (
        append key (
          append "." (
            append (suggestion lower (closest_match lower key settable_keys))
              (append " Valid: " (join_bars lower settable_keys))))))

  -- The generic form: a refusal, or the value under its key, if both are given.
  unfoldable pub generic_form : ConfigArgs → Option (Option ℤ) × Map
  unfolding invalid_key
  generic_form args =
      if str_eq args.key "" && str_eq args.value ""
      then (some none, [])
      else if str_eq args.key "" || str_eq args.value ""
      then (none, err_result "set (generic form) requires both key and value")
      else if not (contains settable_keys args.key)
      then (none, invalid_key args.key)
      else elim (parse_int args.value) [
        | none ↦ (
          none,
          err_result (
              append "'"
                (append args.key (append "' must be an integer, got: " (quote args.value)))),
        )
        | some n ↦ (some (some n), [])
      ]

  -- One value that handleSet stores, and the map `updated` with it.
  unfoldable pub store : String → Option ℤ → S × List (String × ℤ) → S × List (String × ℤ)
  store key none (s, updated) = (s, updated)
  store key (some n) (s, updated) = (state.set_runtime_value key n s, Dict.insert key n updated)

  unfoldable pub set_answer : S × List (String × ℤ) → Map × S
  set_answer (s, []) =
      (err_result "set requires at least one of: key+value, message_limit, timeout", s)
  set_answer (s, updated ∷ more) = (
    ("updated", object (int_fields (updated ∷ more)))
        ∷ ("current", object (int_fields (state.runtime_config s)))
        ∷ [],
    s,
  )

  -- handleSet, once it has looked at the generic form
  unfoldable pub set_values : ConfigArgs → S → Option (Option ℤ) × Map → Map × S
  unfolding store set_answer
  set_values args s (none, refusal) = (refusal, s)
  set_values args s (some value, m) = set_answer (
      store "timeout" args.timeout
        (store "message_limit" args.message_limit (store args.key value (s, []))))

  -- handleSet
  unfoldable pub handle_set : ConfigArgs → S → Map × S
  unfolding generic_form set_values
  handle_set args s = set_values args s (generic_form args)

  setup_status : S → Map
  unfolding setup_instructions
  setup_status s =
      ("state", text (state.credential_state s))
      ∷ ("configured", bool (state.configured s))
      ∷ ("pending_auth", bool (state.pending_auth s))
      ∷ ("setup", setup_instructions)
      ∷ []

  setup_start : ConfigArgs → S → Map
  unfolding setup_instructions
  setup_start args s =
      if state.configured s && not (str_eq args.key "force")
      then ("status", text "already_configured")
        ∷ ("message", text "Already configured. Use key='force' to reconfigure.")
        ∷ []
      else ("status", text "cli_setup_required")
        ∷ (
          "message",
          text
              "This server speaks stdio only, so setup is a local CLI step, not a browser flow. Run `better-telegram-mcp auth --bot-token <token>` for bot mode, or `better-telegram-mcp auth --phone +<number>` for user mode (it prompts for the OTP and, if set, the 2FA password), then call config(action='setup_complete').",
        )
        ∷ ("setup", setup_instructions)
        ∷ []

  -- An operation's new state, with the result that its error or its success gets.
  abbrev concluded : S × Option GoError → (S → Map) → Map × S
  concluded (s, none) result = (result s, s)
  concluded (s, some e) result = (safe_error e, s)

  absent_status : S → Map
  unfolding setup_instructions
  absent_status s =
      ("mode", nil)
      ∷ ("connected", bool false)
      ∷ ("authorized", bool false)
      ∷ ("configured", bool false)
      ∷ ("config", object (int_fields (state.runtime_config s)))
      ∷ ("setup", setup_instructions)
      ∷ ("hint", text "Use action='setup_start' for the exact command to run.")
      ∷ []

  status : BackendStatus → S → Map
  status b s =
      ("mode", text b.mode)
      ∷ ("connected", bool b.connected)
      ∷ ("authorized", bool b.authorized)
      ∷ ("pending_auth", bool (state.pending_auth s))
      ∷ ("config", object (int_fields (state.runtime_config s)))
      ∷ []

  -- The actions that need a backend.
  unfoldable pub backend_config : ConfigArgs → Option BackendStatus → S → Map × S
  unfolding handle_set absent_status status not_ready
  backend_config args none s =
      if str_eq args.action "status"
      then (absent_status s, s)
      else (not_ready (state.configured s), s)
  backend_config args (some b) s =
      if str_eq args.action "status"
      then (status b s, s)
      else if str_eq args.action "set"
      then handle_set args s
      else if str_eq args.action "cache_clear"
      then concluded (s, b.cleared) (λ t. ("message", text "Cache cleared.") ∷ [])
      else (unknown_action lower args.action config_actions, s)

  -- HandleConfig
  unfoldable pub handle_config : ConfigArgs → S → Map × S
  unfolding backend_config setup_status setup_start
  handle_config args s =
      if str_eq args.action "setup_status"
      then (setup_status s, s)
      else if str_eq args.action "setup_start"
      then (setup_start args s, s)
      else if str_eq args.action "setup_reset"
      then concluded (state.reset_credentials s) (λ t.
        ("status", text "ok")
        ∷ ("message", text "Credentials cleared. Run `better-telegram-mcp auth` to reconfigure.")
        ∷ [])
      else if str_eq args.action "setup_complete"
      then concluded (state.refresh_credentials s) (λ t.
        ("status", text "ok")
        ∷ ("state", text (state.credential_state t))
        ∷ ("message", text "Credential state refreshed.")
        ∷ [])
      else backend_config args (state.backend s) s
