-- ===== src/Bot/History.antt =====
-- Histories of polls, peeks and restarts of the bot backend, over any way of reading presses. The
-- two ways, the queue file and getUpdates, are readers that keep the laws below.
pub mod Floor
pub mod Replay
use better_telegram_mcp.Base.{
  ℕ, zero, suc, ◌+◌, ◌≤◌, ◌<◌, ◌^◌, ◌≡◌, refl, sym, ap, ◌∙◌, ◌⊎◌, inl, inr, Bool, true, false,
  Option, none, some, List, [], ◌∷◌, String, arith, All, All-map, Bool-cases, Option-cases,
  if◌then◌else◌,
}
use better_telegram_mcp.Base.Int.{ℤ, pos, ◌≤ℤ◌, ◌<ℤ◌, ltb_ℤ, succ64, pos_part, neg_part, ◌+ℤ◌}
use better_telegram_mcp.Value.{Map}
use better_telegram_mcp.Bot.Update.{update_id, only_callbacks, last, Reply, handed, failed}
use better_telegram_mcp.Bot.Cursor.{
  Cursor, CursorFile, stored, restart, load_cursor, store_cursor, effective_offset,
  offset_value_int, clamp,
}

-- The offset that the next poll starts from.
abbrev pub floor : Cursor → Option ℤ
floor c = (load_cursor c).callback_offset

-- What is on the disk is what the running backend holds: a restart loads the same offset.
abbrev pub Synced : Cursor → Type 0
Synced c = floor (restart c) ≡ floor c

abbrev pub presses : Reply → List Map
presses (handed us) = us
presses (failed e) = []

-- An id that leaves room for the next one in an int64.
abbrev pub HasRoom : Map → Type 0
HasRoom u = suc (suc (pos_part (update_id u))) ≤ 2 ^ 63

abbrev pub Above : ℤ → Map → Type 0
Above offset u = offset ≤ℤ update_id u

-- One way of reading presses. A request holds the caller's arguments and what the outside answers.
pub record Reader : Type 1 where
  pub Request : Type 0
  pub consumes : Request → Bool
  pub persists : Request → Bool
  pub read : Request → Cursor → Reply × Cursor

pub data Event (R : Type 0) : Type 0 where
  poll : R → Event R
  restarted : Event R

-- a peek takes nothing
abbrev pub keep_batch : Bool → List Map → List (List Map) → List (List Map)
keep_batch true batch batches = batch ∷ batches
keep_batch false batch batches = batches

module _ (r : Reader) where
  open r use {Request, consumes, persists, read}

  -- The batches that the consuming polls of a history hand out.
  unfoldable pub consumed : List (Event Request) → Cursor → List (List Map)
  consumed [] c = []
  consumed (restarted ∷ es) c = consumed es (restart c)
  consumed (poll p ∷ es) c =
      keep_batch (consumes p) (presses (read p c).0) (consumed es (read p c).1)

  -- Every write of the cursor file succeeds.
  abbrev pub Persists : List (Event Request) → Type 0
  Persists [] = Unit
  Persists (restarted ∷ es) = Persists es
  Persists (poll p ∷ es) = (persists p ≡ true) × Persists es

  -- What a reader promises of one poll.
  pub record KeepsCursor : Type 0 where
    pub above :
        (p : Request) (c : Cursor) (o : ℤ) → floor c ≡ some o → All (Above o) (presses (read p c).0)
    pub mono :
        (p : Request) (c : Cursor) (o : ℤ)
        → floor c ≡ some o
        → (n : ℤ) × (floor (read p c).1 ≡ some n) × (o ≤ℤ n)
    pub past :
        (p : Request) (c : Cursor)
        → consumes p ≡ true
        → (presses (read p c).0 ≡ [])
          ⊎ ((o : ℤ) × (floor (read p c).1 ≡ some o)
              × All (λ v. update_id v <ℤ o) (presses (read p c).0))
    pub synced :
        (p : Request) (c : Cursor)
        → persists p ≡ true
        → c.has_path ≡ true
        → Synced c
        → Synced (read p c).1
    pub has_path : (p : Request) (c : Cursor) → (read p c).1.has_path ≡ c.has_path
    pub peek : (p : Request) (c : Cursor) → consumes p ≡ false → (read p c).1 ≡ load_cursor c
    pub loads : (p : Request) (c : Cursor) → read p (load_cursor c) ≡ read p c

-- Every id of a batch is below every id of the batches after it.
abbrev pub NoReplay : List (List Map) → Type 0
NoReplay [] = Unit
NoReplay (b ∷ bs) = All (λ u. All (All (λ v. update_id u <ℤ update_id v)) bs) b × NoReplay bs
