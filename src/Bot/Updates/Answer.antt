-- ===== src/Bot/Updates/Answer.antt =====
-- What each answer of getUpdates does to the cursor and hands out.
use better_telegram_mcp.Base.{
  ◌≡◌, refl, ◌∙◌, ◌⊎◌, inl, inr, Bool, true, false, some, List, [], ◌∷◌, String, arith, All,
}
use better_telegram_mcp.Base.Int.{ℤ, ◌≤ℤ◌, ◌<ℤ◌, succ64}
use better_telegram_mcp.Value.{Map}
use better_telegram_mcp.Bot.Update.{update_id, only_callbacks}
use better_telegram_mcp.Bot.Cursor.{Cursor, load_cursor, store_cursor}
use better_telegram_mcp.Base.Int.{negsuc}
use better_telegram_mcp.Bot.Queue.Order.{only_callbacks-All}
use better_telegram_mcp.Bot.Updates.{
  ApiReply, refused, local_failure, undecodable, updates, highest_id, take_updates, after_answer,
}
use better_telegram_mcp.Bot.History.{floor, presses, Above}
use better_telegram_mcp.Bot.History.Floor.{floor-load, store_cursor-floor, succ64-gt, All-lt_succ64}
use better_telegram_mcp.Bot.Updates.Highest.{
  HasId, highest_id-covers, highest_id-room, highest_id-nonneg,
}

-- The state after a decoded answer: the cursor moves past the answer exactly if it was consumed.
taken : Bool → Bool → List Map → Cursor → Cursor
taken false persists us c = c
taken true persists us c = store_cursor persists (succ64 (highest_id (negsuc 0) us)) c

take_updates-state :
    (consume persists : Bool) (u : Map) (us : List Map) (c : Cursor)
    → HasId u
    → All HasId us
    → (take_updates consume persists (u ∷ us) c).1 ≡ taken consume persists (u ∷ us) c
unfolding take_updates taken
take_updates-state false persists u us c h hs = refl
take_updates-state true persists u us c h hs = rw (highest_id-nonneg u us h hs)

take_updates-presses :
    (consume persists : Bool) (us : List Map) (c : Cursor)
    → presses (take_updates consume persists us c).0 ≡ only_callbacks us
unfolding take_updates
take_updates-presses consume persists us c = ground arith

taken_mono :
    (consume persists : Bool) (u : Map) (us : List Map) (c : Cursor) (o : ℤ)
    → All HasId (u ∷ us)
    → Above o u
    → floor c ≡ some o
    → (n : ℤ) × (floor (taken consume persists (u ∷ us) (load_cursor c)) ≡ some n) × (o ≤ℤ n)
unfolding taken
taken_mono false persists u us c o ids a f = (o, floor-load c ∙ f, omega arith)
taken_mono true persists u us c o ids a f =
    let b = highest_id (negsuc 0) (u ∷ us) in
    let le = (highest_id-covers (u ∷ us) (negsuc 0) ids).0 in
    let lt = succ64-gt o b (highest_id-room (u ∷ us) (negsuc 0) ids (omega arith)) (omega arith) in
    (succ64 b, store_cursor-floor persists (succ64 b) c, omega arith)

taken-state :
    (P : Cursor → Type 0) (consume persists : Bool) (us : List Map) (c : Cursor)
    → P c
    → ((o : ℤ) → consume ≡ true → P (store_cursor persists o c))
    → P (taken consume persists us c)
unfolding taken
taken-state P false persists us c h k = h
taken-state P true persists us c h k = k _ refl

module _ (lower : String → String) where
  pub answer-Above :
      (a : ApiReply) (consume persists : Bool) (c : Cursor) (o : ℤ)
      → ((us : List Map) → a ≡ updates us → All (Above o) us)
      → All (Above o) (presses (after_answer lower a consume persists c).0)
  unfolding after_answer
  answer-Above (refused e) consume persists c o h = tt
  answer-Above local_failure consume persists c o h = tt
  answer-Above undecodable consume persists c o h = tt
  answer-Above (updates []) consume persists c o h = tt
  answer-Above (updates (u ∷ us)) consume persists c o h =
      rw take_updates-presses (only_callbacks-All (Above o) (u ∷ us) (h (u ∷ us) refl))

  pub answer_mono :
      (a : ApiReply) (consume persists : Bool) (c : Cursor) (o : ℤ)
      → ((us : List Map) → a ≡ updates us → All HasId us)
      → ((us : List Map) → a ≡ updates us → All (Above o) us)
      → floor c ≡ some o
      → (n : ℤ) × (floor (after_answer lower a consume persists (load_cursor c)).1 ≡ some n)
        × (o ≤ℤ n)
  unfolding after_answer
  answer_mono (refused e) consume persists c o i h f = (o, floor-load c ∙ f, omega arith)
  answer_mono local_failure consume persists c o i h f = (o, floor-load c ∙ f, omega arith)
  answer_mono undecodable consume persists c o i h f = (o, floor-load c ∙ f, omega arith)
  answer_mono (updates []) consume persists c o i h f = (o, floor-load c ∙ f, omega arith)
  answer_mono (updates (u ∷ us)) consume persists c o i h f =
      let ids = i (u ∷ us) refl in
      rw (take_updates-state consume persists u us (load_cursor c) ids.0 ids.1)
        (taken_mono consume persists u us c o ids (h (u ∷ us) refl).0 f)

  pub answer_past :
      (a : ApiReply) (consume persists : Bool) (c : Cursor)
      → ((us : List Map) → a ≡ updates us → All HasId us)
      → consume ≡ true
      → (presses (after_answer lower a consume persists (load_cursor c)).0 ≡ [])
        ⊎ ((o : ℤ) × (floor (after_answer lower a consume persists (load_cursor c)).1 ≡ some o)
            × All
                (λ v. update_id v <ℤ o)
                (presses (after_answer lower a consume persists (load_cursor c)).0))
  unfolding after_answer taken
  answer_past (refused e) consume persists c i h = inl refl
  answer_past local_failure consume persists c i h = inl refl
  answer_past undecodable consume persists c i h = inl refl
  answer_past (updates []) consume persists c i h = inl refl
  answer_past (updates (u ∷ us)) consume persists c i h =
      let ids = i (u ∷ us) refl in
      let b = highest_id (negsuc 0) (u ∷ us) in
      inr (
        succ64 b,
        rw (take_updates-state consume persists u us (load_cursor c) ids.0 ids.1, h)
            (store_cursor-floor persists (succ64 b) c),
        rw take_updates-presses (
            only_callbacks-All _ (u ∷ us) (
              All-lt_succ64 b (u ∷ us) (highest_id-room (u ∷ us) (negsuc 0) ids (omega arith))
                (highest_id-covers (u ∷ us) (negsuc 0) ids))),
      )

  pub answer-state :
      (P : Cursor → Type 0) (a : ApiReply) (consume persists : Bool) (c : Cursor)
      → ((us : List Map) → a ≡ updates us → All HasId us)
      → P c
      → ((o : ℤ) → consume ≡ true → P (store_cursor persists o c))
      → P (after_answer lower a consume persists c).1
  unfolding after_answer
  answer-state P (refused e) consume persists c i h k = h
  answer-state P local_failure consume persists c i h k = h
  answer-state P undecodable consume persists c i h k = h
  answer-state P (updates []) consume persists c i h k = h
  answer-state P (updates (u ∷ us)) consume persists c i h k =
      let ids = i (u ∷ us) refl in
      rw (take_updates-state consume persists u us c ids.0 ids.1)
        (taken-state P consume persists (u ∷ us) c h k)
