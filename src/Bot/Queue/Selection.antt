-- ===== src/Bot/Queue/Selection.antt =====
-- What one read of the queue hands out and what it leaves.
use mathlib.Core.List.{Perm}
use mathlib.Core.List.Perm
use better_telegram_mcp.Base.{
  ℕ, zero, suc, ◌≤◌, ◌≡◌, refl, inl, inr, Bool, Option, List, [], ◌∷◌, ◌++◌, String, arith, All,
  Bool-cases, take, drop, length, length-take, filter,
}
use better_telegram_mcp.Base.Int.{ℤ, pos, ◌≤ℤ◌, ltb_ℤ, pos_part}
use better_telegram_mcp.Value.{Map}
use better_telegram_mcp.Bot.Cursor.{Cursor, load_cursor, effective_offset, offset_value_int, clamp}
use better_telegram_mcp.Bot.Queue.{
  select_updates, QueueFile, missing, unreadable, content, read_queue, get_callback_queries, finish,
  parse_lines, split_lines, sort_updates, insert_update,
}
use better_telegram_mcp.Bot.Queue.Order.{Ascending, sort_updates-Ascending}
use better_telegram_mcp.Bot.Update.{update_id, only_callbacks}
use better_telegram_mcp.Bot.History.{presses}
use better_telegram_mcp.Bot.Queue.Steps.{Poll, step}

insert_update-perm : (u : Map) (us : List Map) → Perm (insert_update u us) (u ∷ us)
unfolding insert_update
insert_update-perm u [] = Perm.refl (u ∷ [])
insert_update-perm u (v ∷ vs) = elim (Bool-cases (ltb_ℤ (update_id v) (update_id u))) [
  | inl b ↦ rw b (Perm.trans (Perm.cons v (insert_update-perm u vs)) (Perm.swap u v vs))
  | inr b ↦ rw b (Perm.refl (u ∷ v ∷ vs))
]

sort_updates-perm : (us : List Map) → Perm (sort_updates us) us
unfolding sort_updates
sort_updates-perm [] = Perm.refl []
sort_updates-perm (u ∷ us) =
    Perm.trans (insert_update-perm u (sort_updates us)) (Perm.cons u (sort_updates-perm us))

take-append-drop : (n : ℕ) (us : List Map) → take n us ++ drop n us ≡ us
take-append-drop zero us = refl
take-append-drop (suc n) [] = refl
take-append-drop (suc n) (u ∷ us) = rw (take-append-drop n us)

All-drop : (P : Map → Type 0) (n : ℕ) (us : List Map) → All P us → All P (drop n us)
All-drop P zero us h = h
All-drop P (suc n) [] h = tt
All-drop P (suc n) (u ∷ us) h = All-drop P n us h.1

abbrev pub Before : List Map → Map → Type 0
Before rest u = All (λ v. update_id u ≤ℤ update_id v) rest

take-Before-drop : (n : ℕ) (us : List Map) → Ascending us → All (Before (drop n us)) (take n us)
take-Before-drop zero us s = tt
take-Before-drop (suc n) [] s = tt
take-Before-drop (suc n) (u ∷ us) s = (All-drop _ n us s.0, take-Before-drop n us s.1)

length-filter : (p : Map → Bool) (us : List Map) → length (filter p us) ≤ length us
length-filter p [] = omega arith
length-filter p (u ∷ us) = ground (arith, length-filter p us)

length-only_callbacks : (us : List Map) → length (only_callbacks us) ≤ length us
unfolding only_callbacks
length-only_callbacks us = length-filter _ us

module _ (decode : String → Option Map) where
  -- A read loses no pending press: the selected ones, with some left over, are exactly the pending
  -- lines of the file in another order, and no press that is left over has a lower id than one that
  -- was selected.
  pub select_updates_lossless :
      (offset : Option ℤ) (limit : ℕ) (raw : String)
      → (rest : List Map) × Perm
          (select_updates decode offset limit raw ++ rest)
          (parse_lines decode (offset_value_int offset) (split_lines raw))
        × All (Before rest) (select_updates decode offset limit raw)
  unfolding select_updates
  select_updates_lossless offset limit raw =
      let pending = parse_lines decode (offset_value_int offset) (split_lines raw) in
      let sorted = sort_updates pending in
      (
        drop limit sorted,
        rw (take-append-drop limit sorted) (sort_updates-perm pending),
        take-Before-drop limit sorted (sort_updates-Ascending pending),
      )

  read-bounded :
      (q : QueueFile) (x : Option ℤ) (n : ℕ) (consume persists : Bool) (c : Cursor)
      → length (presses (read_queue decode q x n consume persists c).0) ≤ n
  unfolding read_queue finish select_updates only_callbacks
  read-bounded missing x n consume persists c = omega arith
  read-bounded unreadable x n consume persists c = omega arith
  read-bounded (content raw) x n consume persists c =
      go (sort_updates (parse_lines decode (offset_value_int x) (split_lines raw)))
    where
      go : (us : List Map) → length (presses (finish consume persists (take n us) c).0) ≤ n
      go us =
          elim (take n us)
              as (λ ts. length ts ≤ n → length (presses (finish consume persists ts c).0) ≤ n) [
                | [] ↦ λ h. omega arith
                | t ∷ ts ↦ λ h. omega (arith, length-only_callbacks (t ∷ ts))
              ]
            (length-take n us)

  clamp-le : (limit : ℤ) → pos_part (clamp limit (pos 1) (pos 100)) ≤ 100
  unfolding clamp
  clamp-le limit = ground arith

  -- No poll of the queue hands out more than 100 presses, whatever limit the caller asks for.
  pub step-bounded : (p : Poll) (c : Cursor) → length (presses (step decode p c).0) ≤ 100
  unfolding step get_callback_queries
  step-bounded p c = omega (
    arith,
    clamp-le p.limit,
    read-bounded p.queue (effective_offset (load_cursor c).callback_offset p.since_id)
        (pos_part (clamp p.limit (pos 1) (pos 100))) p.consume p.persists (load_cursor c),
  )
