-- ===== src/Server/Connecting.antt =====
-- internal/server/server.go: StartConnect and connectLoop. What the world answers to the attempts is
-- a list of turns; a loop whose turns have run out is still at it.
use better_telegram_mcp.Base.{
  ℕ, ◌+◌, ◌*◌, Bool, true, false, ◌||◌, Option, none, some, List, [], ◌∷◌, ltb, if◌then◌else◌,
}
use better_telegram_mcp.Results.{GoError, busy_error}
use better_telegram_mcp.Config.{Host, is_configured}
use better_telegram_mcp.Server.{Server, Dial, connect}

-- errors.As(err, &busy)
abbrev pub is_busy : GoError → Bool
is_busy e = elim e.kind [ busy_error ↦ true | _ ↦ false ]

-- time.Second, in the nanoseconds of a Duration
abbrev pub second : ℕ
second = 1000000000

abbrev pub connect_retry_cap : ℕ
connect_retry_cap = 120 * second

abbrev pub first_backoff : ℕ
first_backoff = 2 * second

-- `if backoff *= 2; backoff > connectRetryCap`
unfoldable pub next_backoff : ℕ → ℕ
next_backoff backoff =
    let doubled = backoff * 2 in
    if ltb connect_retry_cap doubled then connect_retry_cap else doubled

-- One turn of the loop: what the backend's Connect answers, and whether the context is done when it
-- has failed, or gets done before the wait is over.
pub record Turn : Type 0 where
  pub dial : Dial
  pub cancelled : Bool
  pub interrupted : Bool

-- Where an attempt leaves the loop.
pub data Phase : Type 0 where
  waiting : ℕ → Phase
  returned : Phase

-- The lock that the loop takes when it gives up.
abbrev pub give_up : Server → Server
give_up s = record s { connecting = false }

-- The attempt of one turn, by what Connect answered.
unfoldable pub after_attempt : Bool → ℕ → Server × Option GoError → Server × Phase
after_attempt cancelled backoff (s, none) =
    (record s { connecting = false; conn_err = none }, returned)
after_attempt cancelled backoff (s, some e) =
    let s' : Server = record s { conn_err = some e } in
    if is_busy e || cancelled then (give_up s', returned) else (s', waiting backoff)

-- The loop so far: whether it has returned, how long it has waited, and the server.
pub record Run : Type 0 where
  pub over : Bool
  pub waited : ℕ
  pub server : Server

-- The rest of a turn: the loop has returned, or it waits and then goes on, unless it is interrupted.
unfoldable pub after_wait : Bool → ℕ → (ℕ → ℕ → Server → Run) → Server × Phase → Run
unfolding next_backoff
after_wait interrupted waited next (s, returned) = record {
  over = true;
  waited = waited;
  server = s;
}
after_wait interrupted waited next (s, waiting backoff) =
    if interrupted
    then record { over = true; waited = waited; server = give_up s }
    else next (next_backoff backoff) (waited + backoff) s

module _ (host : Host) where
  -- StartConnect; whether the loop has been started is the second part.
  unfoldable pub start_connect : Server → Server × Bool
  start_connect s =
      if is_configured host s.settings then (record s { connecting = true }, true) else (s, false)

  -- connectLoop, from an attempt with this back-off on
  unfoldable pub connect_loop : List Turn → ℕ → ℕ → Server → Run
  unfolding after_attempt after_wait
  connect_loop [] backoff waited s = record { over = false; waited = waited; server = s }
  connect_loop (turn ∷ turns) backoff waited s =
      after_wait turn.interrupted waited (connect_loop turns)
        (after_attempt turn.cancelled backoff (connect host turn.dial s))
