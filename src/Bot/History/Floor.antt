-- ===== src/Bot/History/Floor.antt =====
-- Loading, storing and restarting, seen through the offset of the next poll.
use better_telegram_mcp.Base.{
  suc, ◌≤◌, ◌^◌, ◌≡◌, refl, inl, inr, Bool, true, Option, none, some, List, arith, All, All-map,
  Bool-cases,
}
use better_telegram_mcp.Base.Int.{ℤ, ◌≤ℤ◌, ◌<ℤ◌, ltb_ℤ, succ64, pos_part}
use better_telegram_mcp.Value.{Map}
use better_telegram_mcp.Bot.Update.{update_id}
use better_telegram_mcp.Bot.Cursor.{Cursor, restart, load_cursor, store_cursor, effective_offset}
use better_telegram_mcp.Bot.History.{floor, Synced, Above}

pub effective-le :
    (o : ℤ) (since_id : Option ℤ)
    → (e : ℤ) × (effective_offset (some o) since_id ≡ some e) × (o ≤ℤ e)
unfolding effective_offset
effective-le o none = (o, refl, omega arith)
effective-le o (some n) = elim (Bool-cases (ltb_ℤ o (succ64 n))) [
  | inl b ↦ (succ64 n, rw b, ground arith)
  | inr b ↦ (o, rw b, omega arith)
]

pub floor-load : (c : Cursor) → floor (load_cursor c) ≡ floor c
unfolding load_cursor
floor-load c = ground arith

pub store_cursor-floor :
    (persists : Bool) (o : ℤ) (c : Cursor)
    → floor (store_cursor persists o (load_cursor c)) ≡ some o
unfolding load_cursor store_cursor
store_cursor-floor persists o c = ground arith

pub store_cursor-Synced :
    (o : ℤ) (c : Cursor) → c.has_path ≡ true → Synced (store_cursor true o (load_cursor c))
unfolding load_cursor store_cursor restart
store_cursor-Synced o c h = ground arith

pub load_cursor-Synced : (c : Cursor) → Synced c → Synced (load_cursor c)
unfolding load_cursor restart
load_cursor-Synced c h = ground arith

pub has_path-load : (c : Cursor) → (load_cursor c).has_path ≡ c.has_path
unfolding load_cursor
has_path-load c = ground arith

pub has_path-store : (p : Bool) (o : ℤ) (c : Cursor) → (store_cursor p o c).has_path ≡ c.has_path
unfolding store_cursor
has_path-store p o c = ground arith

pub succ64-gt : (a b : ℤ) → suc (suc (pos_part b)) ≤ 2 ^ 63 → a ≤ℤ b → a <ℤ succ64 b
unfolding succ64
succ64-gt a b r h = ground arith

pub All-lt_succ64 :
    (b : ℤ) (us : List Map)
    → suc (suc (pos_part b)) ≤ 2 ^ 63
    → All (λ v. update_id v ≤ℤ b) us
    → All (λ v. update_id v <ℤ succ64 b) us
All-lt_succ64 b us r h =
    All-map (λ v. update_id v ≤ℤ b) (λ v. update_id v <ℤ succ64 b)
      (λ v. succ64-gt (update_id v) b r) us h

pub restart-has_path : (c : Cursor) → (restart c).has_path ≡ c.has_path
unfolding restart
restart-has_path c = refl

pub restart-Synced : (c : Cursor) → Synced c → Synced (restart c)
unfolding restart
restart-Synced c s = refl

pub All-weaken : (e o : ℤ) (us : List Map) → o ≤ℤ e → All (Above e) us → All (Above o) us
All-weaken e o us h = All-map (Above e) (Above o) (λ v k. omega arith) us

pub load_cursor_idem : (c : Cursor) → load_cursor (load_cursor c) ≡ load_cursor c
unfolding load_cursor
load_cursor_idem c = ground arith

pub restart-load_cursor : (c : Cursor) → restart (load_cursor c) ≡ restart c
unfolding load_cursor restart
restart-load_cursor c = ground arith
