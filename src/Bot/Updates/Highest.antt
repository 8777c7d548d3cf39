-- ===== src/Bot/Updates/Highest.antt =====
-- The highest id of an answer bounds every id of it, and leaves room for the next.
use better_telegram_mcp.Base.{
  ℕ, suc, ◌≤◌, ◌^◌, ◌≡◌, false, Option, none, some, List, [], ◌∷◌, arith, All,
}
use better_telegram_mcp.Base.Int.{ℤ, pos, ◌≤ℤ◌, ltb_ℤ, pos_part}
use better_telegram_mcp.Value.{Map}
use better_telegram_mcp.Bot.Update.{update_id}
use better_telegram_mcp.Base.Int.{negsuc}
use better_telegram_mcp.Value.{get, as_int}
use better_telegram_mcp.Bot.Updates.{highest_id, higher}

-- update_id is a positive number that an int64 holds, with room for the next one.
abbrev pub HasId : Map → Type 0
HasId u = (n : ℕ) × (as_int (get "update_id" u) ≡ some (pos n)) × (suc (suc n) ≤ 2 ^ 63)

HasId-update_id : (u : Map) (h : HasId u) → update_id u ≡ pos h.0
unfolding update_id
HasId-update_id u h = rw (h.1, update_id)

higher-le : (o : Option ℤ) (m : ℤ) → m ≤ℤ higher o m
unfolding higher
higher-le none m = omega arith
higher-le (some n) m = ground arith

higher-ge : (n m : ℤ) → n ≤ℤ higher (some n) m
unfolding higher
higher-ge n m = ground arith

higher-HasId : (u : Map) (m : ℤ) → HasId u → update_id u ≤ℤ higher (as_int (get "update_id" u)) m
higher-HasId u m h = rw (h.1, HasId-update_id u h) (higher-ge (pos h.0) m)

higher-room :
    (u : Map) (m : ℤ)
    → HasId u
    → suc (suc (pos_part m)) ≤ 2 ^ 63
    → suc (suc (pos_part (higher (as_int (get "update_id" u)) m))) ≤ 2 ^ 63
unfolding higher
higher-room u m h r = let k = h.2 in rw (h.1) (ground arith)

pub highest_id-le : (us : List Map) (m : ℤ) → m ≤ℤ highest_id m us
unfolding highest_id
highest_id-le [] m = omega arith
highest_id-le (u ∷ us) m = omega (
  arith,
  higher-le (as_int (get "update_id" u)) m,
  highest_id-le us (higher (as_int (get "update_id" u)) m),
)

pub highest_id-covers :
    (us : List Map) (m : ℤ) → All HasId us → All (λ v. update_id v ≤ℤ highest_id m us) us
unfolding highest_id
highest_id-covers [] m h = tt
highest_id-covers (u ∷ us) m (h, hs) =
    let m' = higher (as_int (get "update_id" u)) m in
    let le = higher-HasId u m h in
    let le' = highest_id-le us m' in (omega arith, highest_id-covers us m' hs)

pub highest_id-room :
    (us : List Map) (m : ℤ)
    → All HasId us
    → suc (suc (pos_part m)) ≤ 2 ^ 63
    → suc (suc (pos_part (highest_id m us))) ≤ 2 ^ 63
unfolding highest_id
highest_id-room [] m h r = r
highest_id-room (u ∷ us) m (h, hs) r =
    highest_id-room us (higher (as_int (get "update_id" u)) m) hs (higher-room u m h r)

-- The highest id of a non-empty answer is not negative.
pub highest_id-nonneg :
    (u : Map) (us : List Map)
    → HasId u
    → All HasId us
    → ltb_ℤ (highest_id (negsuc 0) (u ∷ us)) (pos 0) ≡ false
highest_id-nonneg u us h hs =
    let c = (highest_id-covers (u ∷ us) (negsuc 0) (h, hs)).0 in
    let e = HasId-update_id u h in ground (arith, e)
