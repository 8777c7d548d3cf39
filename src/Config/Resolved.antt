-- ===== src/Config/Resolved.antt =====
-- What internal/config/config.go makes of the environment and of saved credentials.
use better_telegram_mcp.Base.{
  ◌≡◌, ◌∙◌, refl, Bool, true, false, not, ◌&&◌, ◌||◌, List, String, if◌then◌else◌, arith,
}
use better_telegram_mcp.Base.Result.{Result, ok, ◌>>=◌, Oks, ok-Oks, bind-Oks, Oks-ok, chain-Oks}
use better_telegram_mcp.Results.{GoError}
use better_telegram_mcp.Config.{
  Mode, mode_bot, mode_user, Settings, Host, is_unset_text, has_user_credentials, is_configured,
  detect_mode, load, read_settings, merge, apply_saved, env, env_api_id, env_session_lock,
  env_data_dir, has_session, session_path,
}
use better_telegram_mcp.Config.Senders.{parse_senders}

abbrev is_user : Mode → Bool
is_user mode_bot = false
is_user mode_user = true

-- The mode is the user's exactly when there is no bot token and user mode can start.
abbrev pub ModeAgrees : Host → Settings → Type 0
ModeAgrees host s = is_user s.mode ≡ (is_unset_text s.bot_token && has_user_credentials host s)

-- The mode that detectMode leaves, by what it asks.
abbrev pick : Bool → Bool → Mode → Mode
pick false c m = mode_bot
pick true true m = mode_user
pick true false m = m

module _ (host : Host) where
  filled : List (String × String) → Settings → Bool → Result GoError Settings
  filled saved s b = if b then ok s else ok (apply_saved host saved s)

  -- New and RefreshCredentials, once the store has answered: saved credentials fill in settings that
  -- no backend can start with.
  unfoldable pub resolve_settings :
      Result GoError Settings → List (String × String) → Result GoError Settings
  unfolding filled
  resolve_settings settings saved = settings >>= (λ s. filled saved s (is_configured host s))

  pick-is_user : (t c : Bool) (m : Mode) → is_user m ≡ false → is_user (pick t c m) ≡ (t && c)
  pick-is_user false c m h = refl
  pick-is_user true true m h = refl
  pick-is_user true false m h = h

  pick-cases :
      (t c : Bool) (s : Settings)
      → (if not t
          then record s { mode = mode_bot }
          else if c
          then record s { mode = mode_user }
          else s)
        ≡ record s { mode = pick t c s.mode }
  pick-cases false c s = refl
  pick-cases true true s = refl
  pick-cases true false s = refl

  detect_mode-pick :
      (s : Settings)
      → detect_mode host s
        ≡ record s { mode = pick (is_unset_text s.bot_token) (has_user_credentials host s) s.mode }
  unfolding detect_mode
  detect_mode-pick s = pick-cases (is_unset_text s.bot_token) (has_user_credentials host s) s

  has_user_credentials-mode :
      (s : Settings) (m : Mode)
      → has_user_credentials host (record s { mode = m }) ≡ has_user_credentials host s
  unfolding has_user_credentials has_session session_path
  has_user_credentials-mode s m = refl

  detect_mode-ModeAgrees :
      (s : Settings) → is_user s.mode ≡ false → ModeAgrees host (detect_mode host s)
  detect_mode-ModeAgrees s h =
      rw
        (
          detect_mode-pick s,
          has_user_credentials-mode s
              (pick (is_unset_text s.bot_token) (has_user_credentials host s) s.mode),
        )
        (pick-is_user (is_unset_text s.bot_token) (has_user_credentials host s) s.mode h)

  load-Oks : Oks (ModeAgrees host) (load host)
  unfolding load read_settings
  load-Oks =
      let agree = ModeAgrees host in
      bind-Oks agree (env_api_id host (env host "TELEGRAM_API_ID")) _ (λ id.
        bind-Oks agree (env_session_lock host (env host "TELEGRAM_SESSION_LOCK")) _ (λ shared.
          bind-Oks agree (env_data_dir host (env host "TELEGRAM_DATA_DIR")) _ (λ dir.
            bind-Oks agree (parse_senders host.quote (env host "TELEGRAM_ALLOWED_CALLBACK_SENDERS"))
              _
              (λ senders.
                let r = read_settings host id shared dir senders in
                ok-Oks GoError agree (detect_mode host r) (detect_mode-ModeAgrees r refl)))))

  is_configured-is_user :
      (s : Settings) → is_configured host s ≡ false → ModeAgrees host s → is_user s.mode ≡ false
  unfolding is_configured
  is_configured-is_user s h e =
      e ∙ unusable (is_unset_text s.bot_token) (has_user_credentials host s) h
    where
      unusable : (t c : Bool) → (not t || c) ≡ false → (t && c) ≡ false
      unusable t c h = ground (arith, h)

  apply_saved-ModeAgrees :
      (saved : List (String × String)) (s : Settings)
      → is_user s.mode ≡ false
      → ModeAgrees host (apply_saved host saved s)
  unfolding apply_saved merge
  apply_saved-ModeAgrees saved s h = detect_mode-ModeAgrees (merge host saved s) h

  filled-Oks :
      (saved : List (String × String)) (s : Settings) (b : Bool)
      → is_configured host s ≡ b
      → ModeAgrees host s
      → Oks (ModeAgrees host) (filled saved s b)
  unfolding filled Oks
  filled-Oks saved s true e h = h
  filled-Oks saved s false e h = apply_saved-ModeAgrees saved s (is_configured-is_user s e h)

  -- However the settings come about, from the environment alone or filled in from saved credentials,
  -- when Load succeeds the mode is the user's exactly when there is no bot token and user mode can
  -- start.
  pub resolve_settings-ModeAgrees :
      (saved : List (String × String)) (s : Settings)
      → resolve_settings (load host) saved ≡ ok s
      → ModeAgrees host s
  unfolding resolve_settings
  resolve_settings-ModeAgrees saved s h =
      Oks-ok (ModeAgrees host) (resolve_settings (load host) saved) s
        (chain-Oks _ (ModeAgrees host) (load host) _ load-Oks (λ t. filled-Oks saved t _ refl)) h
