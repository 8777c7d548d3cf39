-- ===== src/Bot/Queue/Order.antt =====
-- The order of what readQueue selects: pending updates only, sorted by update_id, so that the last
-- one bounds them all.
use better_telegram_mcp.Base.{
  ℕ, zero, suc, inl, inr, ◌≡◌, true, Option, some, List, [], ◌∷◌, String, arith, take, All,
  All-take, All-filter, Bool-cases, Option-cases,
}
use better_telegram_mcp.Base.Int.{ℤ, ◌≤ℤ◌, ltb_ℤ}
use better_telegram_mcp.Base.Text.{str_eq, trim_space}
use better_telegram_mcp.Value.{Map}
use better_telegram_mcp.Bot.Cursor.{offset_value_int}
use better_telegram_mcp.Bot.Update.{update_id, only_callbacks, last}
use better_telegram_mcp.Bot.History.{Above}
use better_telegram_mcp.Bot.Queue.{
  is_pending, insert_update, sort_updates, parse_lines, split_lines, select_updates,
}

is_pending-Above : (offset : ℤ) (u : Map) → is_pending offset u ≡ true → Above offset u
unfolding is_pending update_id
is_pending-Above offset u h = ground arith

-- Ids do not fall along the list.
abbrev pub Ascending : List Map → Type 0
Ascending [] = Unit
Ascending (u ∷ us) = All (λ v. update_id u ≤ℤ update_id v) us × Ascending us

module _ (P : Map → Type 0) where
  insert_update-All : (u : Map) (us : List Map) → P u → All P us → All P (insert_update u us)
  unfolding insert_update
  insert_update-All u [] h hs = (h, tt)
  insert_update-All u (v ∷ vs) h hs = elim (Bool-cases (ltb_ℤ (update_id v) (update_id u))) [
    | inl b ↦ rw b (hs.0, insert_update-All u vs h hs.1)
    | inr b ↦ rw b (h, hs)
  ]

  pub sort_updates-All : (us : List Map) → All P us → All P (sort_updates us)
  unfolding sort_updates
  sort_updates-All [] h = tt
  sort_updates-All (u ∷ us) h = insert_update-All u (sort_updates us) h.0 (sort_updates-All us h.1)

All-le_trans :
    (a b : ℤ) (us : List Map)
    → a ≤ℤ b
    → All (λ v. b ≤ℤ update_id v) us
    → All (λ v. a ≤ℤ update_id v) us
All-le_trans a b [] h hs = tt
All-le_trans a b (u ∷ us) h hs = (omega arith, All-le_trans a b us h hs.1)

insert_update-Ascending : (u : Map) (us : List Map) → Ascending us → Ascending (insert_update u us)
unfolding insert_update
insert_update-Ascending u [] s = (tt, tt)
insert_update-Ascending u (v ∷ vs) s = elim (Bool-cases (ltb_ℤ (update_id v) (update_id u))) [
  | inl b ↦ rw b (
    insert_update-All (λ w. update_id v ≤ℤ update_id w) u vs (ground arith) s.0,
    insert_update-Ascending u vs s.1,
  )
  | inr b ↦
      let h : update_id u ≤ℤ update_id v = ground arith in
      rw b ((h, All-le_trans (update_id u) (update_id v) vs h s.0), s)
]

pub sort_updates-Ascending : (us : List Map) → Ascending (sort_updates us)
unfolding sort_updates
sort_updates-Ascending [] = tt
sort_updates-Ascending (u ∷ us) =
    insert_update-Ascending u (sort_updates us) (sort_updates-Ascending us)

pub take-Ascending : (n : ℕ) (us : List Map) → Ascending us → Ascending (take n us)
take-Ascending zero us s = tt
take-Ascending (suc n) [] s = tt
take-Ascending (suc n) (u ∷ us) s = (All-take _ n us s.0, take-Ascending n us s.1)

pub last-All : (P : Map → Type 0) (u : Map) (us : List Map) → All P (u ∷ us) → P (last u us)
last-All P u [] h = h.0
last-All P u (v ∷ vs) h = last-All P v vs h.1

pub le-last :
    (u : Map) (us : List Map)
    → Ascending (u ∷ us)
    → All (λ v. update_id v ≤ℤ update_id (last u us)) (u ∷ us)
le-last u [] s = (omega arith, tt)
le-last u (v ∷ vs) s = (last-All (λ w. update_id u ≤ℤ update_id w) v vs s.0, le-last v vs s.1)

pub only_callbacks-All : (P : Map → Type 0) (us : List Map) → All P us → All P (only_callbacks us)
unfolding only_callbacks
only_callbacks-All P us h = All-filter P _ us h

module _ (decode : String → Option Map) where
  parse_lines-Above :
      (offset : ℤ) (lines : List String) → All (Above offset) (parse_lines decode offset lines)
  unfolding parse_lines
  parse_lines-Above offset [] = tt
  parse_lines-Above offset (line ∷ lines) = elim (Bool-cases (str_eq (trim_space line) "")) [
    | inl blank ↦ rw blank (parse_lines-Above offset lines)
    | inr b ↦ rw b (elim (Option-cases (decode (trim_space line))) [
      | inl bad ↦ rw bad (parse_lines-Above offset lines)
      | inr (u, good) ↦ rw good (elim (Bool-cases (is_pending offset u)) [
        | inl p ↦ rw p (is_pending-Above offset u p, parse_lines-Above offset lines)
        | inr p ↦ rw p (parse_lines-Above offset lines)
      ])
    ])
  ]

  module _ (P : Map → Type 0) (each : (line : String) (u : Map) → decode line ≡ some u → P u) where
    parse_lines-All : (offset : ℤ) (lines : List String) → All P (parse_lines decode offset lines)
    unfolding parse_lines
    parse_lines-All offset [] = tt
    parse_lines-All offset (line ∷ lines) = elim (Bool-cases (str_eq (trim_space line) "")) [
      | inl blank ↦ rw blank (parse_lines-All offset lines)
      | inr b ↦ rw b (elim (Option-cases (decode (trim_space line))) [
        | inl bad ↦ rw bad (parse_lines-All offset lines)
        | inr (u, good) ↦ rw good (elim (Bool-cases (is_pending offset u)) [
          | inl p ↦ rw p (each (trim_space line) u good, parse_lines-All offset lines)
          | inr p ↦ rw p (parse_lines-All offset lines)
        ])
      ])
    ]

    -- What every decoded line satisfies, the selected updates satisfy.
    pub select_updates-All :
        (offset : Option ℤ) (limit : ℕ) (raw : String)
        → All P (select_updates decode offset limit raw)
    unfolding select_updates
    select_updates-All offset limit raw =
        All-take _ limit _ (sort_updates-All _ _ (parse_lines-All _ (split_lines raw)))

  pub select_updates-Above :
      (offset : Option ℤ) (limit : ℕ) (raw : String)
      → All (Above (offset_value_int offset)) (select_updates decode offset limit raw)
  unfolding select_updates
  select_updates-Above offset limit raw =
      All-take _ limit _ (sort_updates-All _ _ (parse_lines-Above _ (split_lines raw)))

  pub select_updates-Ascending :
      (offset : Option ℤ) (limit : ℕ) (raw : String)
      → Ascending (select_updates decode offset limit raw)
  unfolding select_updates
  select_updates-Ascending offset limit raw = take-Ascending limit _ (sort_updates-Ascending _)
