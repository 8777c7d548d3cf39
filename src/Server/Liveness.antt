-- ===== src/Server/Liveness.antt =====
-- How connectLoop of internal/server/server.go ends, and how long it waits.
use better_telegram_mcp.Base.{
  ℕ, zero, suc, ◌+◌, ◌*◌, ◌^◌, ◌≤◌, ◌≡◌, ◌∙◌, refl, Bool, true, false, not, ◌&&◌, ◌||◌, Option,
  none, some, List, [], ◌∷◌, ◌++◌, length, All, arith, Bool-cases, inl, inr,
}
use Prim.Native.Nat.{min}
use better_telegram_mcp.Base.Result.{Result, ok, err}
use better_telegram_mcp.Results.{GoError}
use better_telegram_mcp.Config.{Host, Settings, is_configured}
use better_telegram_mcp.Server.{Server, new_backend, connect, connected_to, is_user_mode}
use better_telegram_mcp.Server.Connecting.{
  is_busy, second, connect_retry_cap, first_backoff, next_backoff, Turn, after_attempt, after_wait,
  Run, connect_loop,
}

-- The gap after n + 1 failed attempts: 2 * 2 ^ n seconds, or two minutes where that is longer.
abbrev pub gap : ℕ → ℕ
gap n = min (2 * 2 ^ n * second) (120 * second)

next_backoff-gap : (n : ℕ) → next_backoff (gap n) ≡ gap (suc n)
unfolding next_backoff
next_backoff-gap n = ground arith

-- The n gaps from the k-th on, one after the other.
unfoldable pub total_gap : ℕ → ℕ → ℕ
total_gap k zero = 0
total_gap k (suc n) = gap k + total_gap (suc k) n

next_backoff-le : (b : ℕ) → next_backoff b ≤ connect_retry_cap
unfolding next_backoff
next_backoff-le b = ground arith

-- What has been waited after n more waits, from a back-off on.
waits : ℕ → ℕ → ℕ → ℕ
waits w zero b = w
waits w (suc n) b = waits (w + b) n (next_backoff b)

waits-le : (w n b : ℕ) → b ≤ connect_retry_cap → waits w n b ≤ w + n * connect_retry_cap
unfolding waits
waits-le w zero b h = omega arith
waits-le w (suc n) b h = omega (arith, h, waits-le (w + b) n (next_backoff b) (next_backoff-le b))

-- A turn that fails for a reason that is worth a retry, and lets the loop wait.
abbrev pub Transient : Host → Settings → Turn → Type 0
Transient host settings turn =
    (e : GoError) × (turn.dial (new_backend host settings) ≡ err e)
    × (is_busy e ≡ false)
    × (turn.cancelled ≡ false)
    × (turn.interrupted ≡ false)

-- A turn that fails for good: another process holds the session, or the context is done.
abbrev pub Fatal : Host → Settings → Turn → GoError → Type 0
Fatal host settings turn e =
    (turn.dial (new_backend host settings) ≡ err e)
    × (is_busy e || turn.cancelled || turn.interrupted ≡ true)

-- The server that has connected.
abbrev pub up : Host → Bool → Server → Server
up host authorized s = record s {
  backend = some (new_backend host s.settings);
  configured = true;
  pending_auth = is_user_mode s.settings.mode && not authorized;
  connecting = false;
  conn_err = none;
}

third : (a b c : Bool) → (a || b || c) ≡ true → (a || b) ≡ false → c ≡ true
third a b c h k = ground (arith, h, k)

module _ (host : Host) where
  connect-answered :
      (turn : Turn) (s : Server) (r : Result GoError Bool)
      → is_configured host s.settings ≡ true
      → turn.dial (new_backend host s.settings) ≡ r
      → connect host turn.dial s ≡ connected_to host (new_backend host s.settings) r s
  unfolding connect
  connect-answered turn s r c h = rw (c, h) refl

  retried :
      (turn : Turn) (turns : List Turn) (b w : ℕ) (s : Server)
      → is_configured host s.settings ≡ true
      → (t : Transient host s.settings turn)
      → connect_loop host (turn ∷ turns) b w s
        ≡ connect_loop host turns (next_backoff b) (w + b) (record s { conn_err = some t.0 })
  unfolding connect_loop connected_to after_attempt after_wait
  retried turn turns b w s c (e, h, busy, cancelled, interrupted) =
      rw (connect-answered turn s (err e) c h, busy, cancelled, interrupted) refl

  landed :
      (turn : Turn) (turns : List Turn) (b w : ℕ) (s : Server) (a : Bool)
      → is_configured host s.settings ≡ true
      → turn.dial (new_backend host s.settings) ≡ ok a
      → connect_loop host (turn ∷ turns) b w s
        ≡ record { over = true; waited = w; server = up host a s }
  unfolding connect_loop connected_to after_attempt after_wait
  landed turn turns b w s a c h = rw (connect-answered turn s (ok a) c h) refl

  stopped :
      (turn : Turn) (turns : List Turn) (b w : ℕ) (s : Server) (e : GoError)
      → is_configured host s.settings ≡ true
      → Fatal host s.settings turn e
      → connect_loop host (turn ∷ turns) b w s ≡ record {
        over = true;
        waited = w;
        server = record s { connecting = false; conn_err = some e };
      }
  unfolding connect_loop connected_to after_attempt after_wait
  stopped turn turns b w s e c (h, fatal) =
      rw (connect-answered turn s (err e) c h) (elim (Bool-cases (is_busy e || turn.cancelled)) [
        | inl q ↦ rw q refl
        | inr q ↦ rw (q, third (is_busy e) turn.cancelled turn.interrupted fatal q) refl
      ])

  -- What a loop does after turns that all fail for reasons worth a retry.
  after_retries :
      (ts turns : List Turn) (b w : ℕ) (s : Server) (r : Run)
      → is_configured host s.settings ≡ true
      → All (Transient host s.settings) ts
      → ((w' b' : ℕ) (e : Option GoError)
          → connect_loop host turns b' w' (record s { conn_err = e })
            ≡ record { over = r.over; waited = w'; server = r.server })
      → connect_loop host (ts ++ turns) b w s
        ≡ record { over = r.over; waited = waits w (length ts) b; server = r.server }
  unfolding waits
  after_retries [] turns b w s r c h last = last w b s.conn_err
  after_retries (t ∷ ts) turns b w s r c (h, hs) last =
      retried t (ts ++ turns) b w s c h
      ∙ after_retries ts turns (next_backoff b) (w + b) (record s { conn_err = some h.0 }) r c hs
          last

  -- The loop connects: when the server is configured, and any number of attempts that fail for
  -- reasons worth a retry are followed by one that Telegram answers, it returns with that backend in
  -- place, no error and nothing in flight, and it has waited two minutes an attempt at most.
  pub connect_loop-up :
      (ts turns : List Turn) (turn : Turn) (a : Bool) (s : Server)
      → is_configured host s.settings ≡ true
      → All (Transient host s.settings) ts
      → turn.dial (new_backend host s.settings) ≡ ok a
      → let r = connect_loop host (ts ++ turn ∷ turns) first_backoff 0 s in
        (r.over ≡ true) × (r.server ≡ up host a s) × (r.waited ≤ length ts * connect_retry_cap)
  connect_loop-up ts turns turn a s c hs h =
      rw
        (after_retries ts (turn ∷ turns) first_backoff 0 s
          (record { over = true; waited = 0; server = up host a s }) c hs
          (λ w b e. landed turn turns b w (record s { conn_err = e }) a c h))
        (refl, refl, omega (arith, waits-le 0 (length ts) first_backoff (omega arith)))

  -- The loop gives up: after any number of attempts that fail for reasons worth a retry, one that
  -- finds the session held by another process, or the context done, ends it. The server then keeps
  -- that error and the backend it had, and nothing is in flight.
  pub connect_loop-gives_up :
      (ts turns : List Turn) (turn : Turn) (e : GoError) (s : Server)
      → is_configured host s.settings ≡ true
      → All (Transient host s.settings) ts
      → Fatal host s.settings turn e
      → let r = connect_loop host (ts ++ turn ∷ turns) first_backoff 0 s in
        (r.over ≡ true) × (r.server ≡ record s { connecting = false; conn_err = some e })
  connect_loop-gives_up ts turns turn e s c hs h =
      rw
        (after_retries ts (turn ∷ turns) first_backoff 0 s
          (record {
            over = true;
            waited = 0;
            server = record s { connecting = false; conn_err = some e };
          })
          c hs (λ w b e'. stopped turn turns b w (record s { conn_err = e' }) e c h))
        (refl, refl)

  retries-total_gap :
      (ts : List Turn) (k w : ℕ) (s : Server)
      → is_configured host s.settings ≡ true
      → All (Transient host s.settings) ts
      → let r = connect_loop host ts (gap k) w s in
        (r.over ≡ false) × (r.waited ≡ w + total_gap k (length ts))
  unfolding connect_loop total_gap
  retries-total_gap [] k w s c h = (refl, omega arith)
  retries-total_gap (t ∷ ts) k w s c (h, hs) =
      let (over, waited) =
        retries-total_gap ts (suc k) (w + gap k) (record s { conn_err = some h.0 }) c hs in
      rw (retried t ts (gap k) w s c h, next_backoff-gap k) (over, omega (arith, waited))

  -- How long the loop waits: on a configured server, after any number n of attempts that all fail for
  -- reasons worth a retry, it is still at it, and it has waited the first n terms of 2, 4, 8, 16, …
  -- seconds, each 2 * 2 ^ i seconds, or two minutes where that is longer.
  pub connect_loop-total_gap :
      (ts : List Turn) (s : Server)
      → is_configured host s.settings ≡ true
      → All (Transient host s.settings) ts
      → let r = connect_loop host ts first_backoff 0 s in
        (r.over ≡ false) × (r.waited ≡ total_gap 0 (length ts))
  connect_loop-total_gap ts s c hs =
      let (over, waited) = retries-total_gap ts 0 0 s c hs in (over, omega (arith, waited))
