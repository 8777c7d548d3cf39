-- ===== src/Folders/Ids.antt =====
-- Which id a new folder gets, by nextFolderID of internal/telegram/user_folders.go.
use better_telegram_mcp.Base.{
  ℕ, zero, suc, ◌+◌, ◌≤◌, ◌<◌, ◌≡◌, true, false, Option, none, some, List, arith, Bool-cases, inl,
  inr,
}
use better_telegram_mcp.Base.Int.{ℤ, pos}
use better_telegram_mcp.Folders.{DialogFilter, has, ids, free_from, next_folder_id}

-- The answer to the search of n ids from `first` on: a free one of them, or all of them are used.
abbrev pub Picks : ℕ → ℕ → List ℤ → Option ℕ → Type 0
Picks n first used (some id) = (first ≤ id) × (id < first + n) × (has used (pos id) ≡ false)
Picks n first used none = (id : ℕ) → first ≤ id → id < first + n → has used (pos id) ≡ true

free_from-Picks : (n first : ℕ) (used : List ℤ) → Picks n first used (free_from n first used)
unfolding free_from
free_from-Picks zero first used = λ id low high. absurd (omega (arith, low, high))
free_from-Picks (suc n) first used = elim (Bool-cases (has used (pos first))) [
  | inr b ↦ rw b (omega arith, omega arith, b)
  | inl b ↦ rw b (widen (free_from n (suc first) used) (free_from-Picks n (suc first) used) b)
]
  where
    widen :
        (o : Option ℕ)
        → Picks n (suc first) used o
        → has used (pos first) ≡ true
        → Picks (suc n) first used o
    widen (some id) h b = (omega (arith, h.0), omega (arith, h.1), h.2)
    widen none h b = λ id low high. ground (arith, h id, b)

-- nextFolderID gives an id from 2 to 255 that no folder has; when it gives none, every id from 2 to
-- 255 is a folder's.
pub next_folder_id-Picks :
    (existing : List DialogFilter) → Picks 254 2 (ids existing) (next_folder_id existing)
unfolding next_folder_id
next_folder_id-Picks existing = free_from-Picks 254 2 (ids existing)
