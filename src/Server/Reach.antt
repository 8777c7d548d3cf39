-- ===== src/Server/Reach.antt =====
-- internal/server/server.go: connectLoop beside the calls of the tools, which change the server while
-- the loop dials or waits. A step is one critical section of the server's lock; Connect reads the
-- settings, dials without the lock, and takes it again with the answer.
use better_telegram_mcp.Base.{
  ℕ, ◌≤◌, ◌≡◌, refl, Bool, true, false, ◌||◌, Option, none, some, List, [], ◌∷◌, ◌++◌, String,
  if◌then◌else◌, arith, Bool-cases, inl, inr,
}
use better_telegram_mcp.Base.Int.{ℤ}
use better_telegram_mcp.Base.Result.{Result, ok, err}
use better_telegram_mcp.Results.{GoError}
use better_telegram_mcp.Config.{Host, Settings, is_configured}
use better_telegram_mcp.Server.{
  Server, Backend, new_backend, connected_to, close, set_runtime_value, reset_credentials,
}
use better_telegram_mcp.Server.Connecting.{
  is_busy, connect_retry_cap, first_backoff, next_backoff, Phase, waiting, returned, give_up,
  after_attempt, start_connect,
}

-- Where the goroutine of connectLoop stands, with its back-off.
pub data Loop : Type 0 where
  absent : Loop
  trying : ℕ → Loop
  dialing : ℕ → Backend → Loop
  pausing : ℕ → Loop

abbrev pub after_phase : Phase → Loop
after_phase returned = absent
after_phase (waiting backoff) = pausing backoff

-- The server, its loop, and the backends that calls of RefreshCredentials are dialing.
pub record World : Type 0 where
  pub server : Server
  pub loop : Loop
  pub refreshing : List Backend

-- What RefreshCredentials does before it connects.
unfoldable pub adopted : Host → Settings → Server → Server
unfolding close
adopted host settings s =
    let closed = close host (record s { settings = settings }) in
    record closed.0 { configured = is_configured host settings; pending_auth = false }

pub data Step (host : Host) : World → World → Type 0 where
  starts :
      (s : Server) (bs : List Backend)
      → is_configured host s.settings ≡ true
      → Step host
          (record { server = s; loop = absent; refreshing = bs })
          (record {
            server = (start_connect host s).0;
            loop = trying first_backoff;
            refreshing = bs;
          })
  -- Connect picks the backend, or finds that the server is no longer configured.
  dials :
      (s : Server) (b : ℕ) (bs : List Backend)
      → is_configured host s.settings ≡ true
      → Step host
          (record { server = s; loop = trying b; refreshing = bs })
          (record { server = s; loop = dialing b (new_backend host s.settings); refreshing = bs })
  unconfigured :
      (s : Server) (b : ℕ) (bs : List Backend)
      → is_configured host s.settings ≡ false
      → Step host
          (record { server = s; loop = trying b; refreshing = bs })
          (record { server = (after_attempt false b (s, none)).0; loop = absent; refreshing = bs })
  -- The answer of Telegram, and what the loop makes of it.
  lands :
      (s : Server) (b : ℕ) (backend : Backend) (bs : List Backend) (answer : Result GoError Bool)
      (cancelled : Bool)
      → Step host
          (record { server = s; loop = dialing b backend; refreshing = bs })
          (let (s', phase) = after_attempt cancelled b (connected_to host backend answer s) in
            record { server = s'; loop = after_phase phase; refreshing = bs })
  fires :
      (s : Server) (b : ℕ) (bs : List Backend)
      → Step host
          (record { server = s; loop = pausing b; refreshing = bs })
          (record { server = s; loop = trying (next_backoff b); refreshing = bs })
  interrupted :
      (s : Server) (b : ℕ) (bs : List Backend)
      → Step host
          (record { server = s; loop = pausing b; refreshing = bs })
          (record { server = give_up s; loop = absent; refreshing = bs })
  sets :
      (key : String) (n : ℤ) (w : World)
      → Step host w (record w { server = set_runtime_value host key n w.server })
  closes : (w : World) → Step host w (record w { server = (close host w.server).0 })
  resets :
      (cleared : Option GoError) (w : World)
      → Step host w (record w { server = (reset_credentials host cleared w.server).0 })
  refreshes :
      (settings : Settings) (w : World)
      → Step host w (record w {
        server = adopted host settings w.server;
        refreshing =
            if is_configured host settings
            then new_backend host settings ∷ w.refreshing
            else w.refreshing;
      })
  refreshed :
      (backend : Backend) (answer : Result GoError Bool) (s : Server) (loop : Loop)
      (before after : List Backend)
      → Step host
          (record { server = s; loop = loop; refreshing = before ++ backend ∷ after })
          (record {
            server = (connected_to host backend answer s).0;
            loop = loop;
            refreshing = before ++ after;
          })

-- What a server that has just been made can reach, however the steps fall.
pub data Reach (host : Host) (start : Server) : World → Type 0 where
  begins : Reach host start (record { server = start; loop = absent; refreshing = [] })
  goes_on : {v w : World} → Reach host start v → Step host v w → Reach host start w

-- A loop is at work exactly while the server says that it is connecting, and its back-off is between
-- two seconds and two minutes.
abbrev pub IsSteady : Loop → Bool → Type 0
IsSteady absent connecting = connecting ≡ false
IsSteady (trying b) connecting = (connecting ≡ true) × (first_backoff ≤ b) × (b ≤ connect_retry_cap)
IsSteady (dialing b backend) connecting =
    (connecting ≡ true) × (first_backoff ≤ b) × (b ≤ connect_retry_cap)
IsSteady (pausing b) connecting =
    (connecting ≡ true) × (first_backoff ≤ b) × (b ≤ connect_retry_cap)

abbrev pub WorldIsSteady : World → Type 0
WorldIsSteady w = IsSteady w.loop w.server.connecting

next_backoff-bounds :
    (b : ℕ)
    → first_backoff ≤ b
    → (first_backoff ≤ next_backoff b) × (next_backoff b ≤ connect_retry_cap)
unfolding next_backoff
next_backoff-bounds b h = (ground (arith, h), ground arith)

connected_to-connecting :
    (host : Host) (backend : Backend) (answer : Result GoError Bool) (s : Server)
    → (connected_to host backend answer s).0.connecting ≡ s.connecting
unfolding connected_to
connected_to-connecting host backend (ok a) s = refl
connected_to-connecting host backend (err e) s = refl

reset_credentials-connecting :
    (host : Host) (cleared : Option GoError) (s : Server)
    → (reset_credentials host cleared s).0.connecting ≡ s.connecting
unfolding reset_credentials
reset_credentials-connecting host none s = refl
reset_credentials-connecting host (some e) s = refl

after_attempt-IsSteady :
    (cancelled : Bool) (b : ℕ) (s : Server) (e : Option GoError)
    → s.connecting ≡ true
    → first_backoff ≤ b
    → b ≤ connect_retry_cap
    → let (s', phase) = after_attempt cancelled b (s, e) in
      IsSteady (after_phase phase) s'.connecting
unfolding after_attempt
after_attempt-IsSteady cancelled b s none c lo hi = refl
after_attempt-IsSteady cancelled b s (some e) c lo hi = elim (Bool-cases (is_busy e || cancelled)) [
  | inl q ↦ rw q refl
  | inr q ↦ rw q (c, lo, hi)
]

module _ (host : Host) where
  Step-WorldIsSteady : {v w : World} → Step host v w → WorldIsSteady v → WorldIsSteady w
  unfolding start_connect close set_runtime_value adopted connected_to after_attempt
  Step-WorldIsSteady (starts s bs c) h = rw c (refl, omega arith, omega arith)
  Step-WorldIsSteady (dials s b bs c) h = h
  Step-WorldIsSteady (unconfigured s b bs c) h = refl
  Step-WorldIsSteady (lands s b backend bs (ok a) cancelled) (c, lo, hi) = refl
  Step-WorldIsSteady (lands s b backend bs (err e) cancelled) (c, lo, hi) =
      after_attempt-IsSteady cancelled b s (some e) c lo hi
  Step-WorldIsSteady (fires s b bs) (c, lo, hi) =
      let (low, high) = next_backoff-bounds b lo in (c, low, high)
  Step-WorldIsSteady (interrupted s b bs) h = refl
  Step-WorldIsSteady (sets key n w) h = h
  Step-WorldIsSteady (closes w) h = h
  Step-WorldIsSteady (resets cleared w) h =
      rw (reset_credentials-connecting host cleared w.server) h
  Step-WorldIsSteady (refreshes settings w) h = h
  Step-WorldIsSteady (refreshed backend answer s loop before after) h =
      rw (connected_to-connecting host backend answer s) h

  -- However the loop and the calls of the tools interleave, from a server that is not connecting: the
  -- loop is at work exactly while the server says that it is connecting, and waits between two seconds
  -- and two minutes.
  pub Reach-WorldIsSteady :
      (start : Server) (w : World) → start.connecting ≡ false → Reach host start w → WorldIsSteady w
  Reach-WorldIsSteady start w h begins = h
  Reach-WorldIsSteady start w h (goes_on r step) =
      Step-WorldIsSteady step (Reach-WorldIsSteady start _ h r)
