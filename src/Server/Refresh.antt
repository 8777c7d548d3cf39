-- ===== src/Server/Refresh.antt =====
-- internal/server/server.go: what RefreshCredentials leaves.
use better_telegram_mcp.Base.{
  ◌≡◌, inl, inr, refl, Bool, true, false, Option, none, some, if◌then◌else◌, Bool-cases,
}
use better_telegram_mcp.Base.Result.{Result, ok, err, ◌>>=◌}
use better_telegram_mcp.Results.{GoError}
use better_telegram_mcp.Config.{Host, Settings, is_configured, load, apply_saved}
use better_telegram_mcp.Server.{
  Server, Dial, Saved, fill, new_backend, connected_to, connect, close, adopt, refresh_credentials,
}

-- The settings that a refresh is to adopt: those of the environment, or, where no backend can start
-- with these, with the saved credentials put in.
unfoldable pub refreshed_settings : Host → Saved → Result GoError Settings
refreshed_settings host saved = load host >>= (λ s.
    if is_configured host s
    then ok s
    else saved >>= (λ found. elim found [
      | none ↦ ok s
      | some credentials ↦ ok (apply_saved host credentials s)
    ]))

-- A server that has these settings and stands by them: with no error, it has the backend that they
-- describe, or none where they describe none; with an error, it is the one that Telegram answered to
-- that backend, and the server has no backend.
abbrev pub StandsBy : Host → Dial → Settings → Server × Option GoError → Type 0
StandsBy host dial settings (s, none) =
    (s.settings ≡ settings)
    × (s.backend ≡ (if is_configured host settings then some (new_backend host settings) else none))
    × (s.configured ≡ is_configured host settings)
StandsBy host dial settings (s, some e) =
    (s.settings ≡ settings)
    × (s.backend ≡ none)
    × (is_configured host settings ≡ true)
    × (dial (new_backend host settings) ≡ err e)

-- What a refresh makes of a server: where there are no settings to adopt, that error, and the server
-- as it was; otherwise a server that stands by them.
abbrev pub Refreshed :
    Host → Dial → Server → Result GoError Settings → Server × Option GoError → Type 0
Refreshed host dial s (err x) (s', e) = (e ≡ some x) × (s' ≡ s)
Refreshed host dial s (ok settings) r = StandsBy host dial settings r

module _ (host : Host) (dial : Dial) where
  connected_to-StandsBy :
      (s : Server) (answer : Result GoError Bool)
      → is_configured host s.settings ≡ true
      → s.backend ≡ none
      → dial (new_backend host s.settings) ≡ answer
      → StandsBy host dial s.settings (connected_to host (new_backend host s.settings) answer s)
  unfolding connected_to
  connected_to-StandsBy s (ok a) c h d = rw c (refl, refl, refl)
  connected_to-StandsBy s (err e) c h d = (refl, h, c, d)

  adopt-StandsBy :
      (settings : Settings) (s : Server) → StandsBy host dial settings (adopt host dial settings s)
  unfolding adopt connect close
  adopt-StandsBy settings s = elim (Bool-cases (is_configured host settings)) [
    | inr b ↦ rw b (refl, rw b refl, rw b refl)
    | inl b ↦ rw b (connected_to-StandsBy _ (dial (new_backend host settings)) b refl refl)
  ]

  choose-Refreshed :
      (s : Server) (b : Bool) (target target' : Result GoError Settings)
      (p q : Server × Option GoError)
      → Refreshed host dial s target p
      → Refreshed host dial s target' q
      → Refreshed host dial s (if b then target else target') (if b then p else q)
  choose-Refreshed s true t t' p q h k = h
  choose-Refreshed s false t t' p q h k = k

  -- RefreshCredentials either reports why there are no settings to adopt, the environment's or the
  -- store's error, and leaves the server as it was; or it leaves a server with the settings of the
  -- environment, the saved credentials put in where no backend can start without them, that stands by
  -- these settings: it has the backend that they describe, or none where they describe none, or, when
  -- Telegram refuses that backend, none and the error.
  pub refresh_credentials-Refreshed :
      (saved : Saved) (s : Server)
      → Refreshed host dial s
          (refreshed_settings host saved)
          (refresh_credentials host dial saved s)
  unfolding refresh_credentials refreshed_settings fill
  refresh_credentials-Refreshed saved s = loaded (load host) saved
    where
      loaded :
          (r : Result GoError Settings) (saved : Saved)
          → Refreshed host dial s
              (r >>= (λ l.
                if is_configured host l
                then ok l
                else saved >>= (λ found. elim found [
                  | none ↦ ok l
                  | some credentials ↦ ok (apply_saved host credentials l)
                ])))
              (elim r [
                | err e ↦ (s, some e)
                | ok l ↦ if is_configured host l then adopt host dial l s else elim saved [
                  | err e ↦ (s, some e)
                  | ok found ↦ adopt host dial (fill host l found) s
                ]
              ])
      loaded (err e) saved = (refl, refl)
      loaded (ok l) (err e) =
          choose-Refreshed s (is_configured host l) (ok l) (err e) _ _ (adopt-StandsBy l s)
            (refl, refl)
      loaded (ok l) (ok none) =
          choose-Refreshed s (is_configured host l) (ok l) (ok l) _ _ (adopt-StandsBy l s)
            (adopt-StandsBy l s)
      loaded (ok l) (ok (some credentials)) =
          choose-Refreshed s (is_configured host l) (ok l) (ok (apply_saved host credentials l)) _ _
            (adopt-StandsBy l s) (adopt-StandsBy (apply_saved host credentials l) s)
