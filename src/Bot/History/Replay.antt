-- ===== src/Bot/History/Replay.antt =====
-- What the callback cursor promises over any history of polls, peeks and restarts of the server.
use better_telegram_mcp.Base.{
  ◌≡◌, refl, ap, ◌∙◌, inl, inr, Bool, true, false, some, List, [], ◌∷◌, arith, All, All-map,
}
use better_telegram_mcp.Base.Int.{ℤ, ◌<ℤ◌}
use better_telegram_mcp.Value.{Map}
use better_telegram_mcp.Bot.Update.{update_id}
use better_telegram_mcp.Bot.Cursor.{Cursor, restart, load_cursor}
use better_telegram_mcp.Bot.History.{
  floor, Synced, presses, Above, Reader, Event, poll, restarted, keep_batch, consumed, Persists,
  KeepsCursor, NoReplay,
}
use better_telegram_mcp.Bot.History.Floor.{
  restart-has_path, restart-Synced, All-weaken, restart-load_cursor,
}

All-keep_batch :
    (P : List Map → Type 0) (b : Bool) (batch : List Map) (batches : List (List Map))
    → P batch
    → All P batches
    → All P (keep_batch b batch batches)
All-keep_batch P true batch batches h hs = (h, hs)
All-keep_batch P false batch batches h hs = hs

NoReplay-keep_batch :
    (b : Bool) (batch : List Map) (batches : List (List Map))
    → (b ≡ true → All (λ u. All (All (λ v. update_id u <ℤ update_id v)) batches) batch)
    → NoReplay batches
    → NoReplay (keep_batch b batch batches)
NoReplay-keep_batch true batch batches h hs = (h refl, hs)
NoReplay-keep_batch false batch batches h hs = hs

keep-peek :
    (b : Bool) (batch : List Map) (batches : List (List Map))
    → b ≡ false
    → keep_batch b batch batches ≡ batches
keep-peek b batch batches h = ground arith

module _ (r : Reader) (keeps : KeepsCursor r) where
  -- From a floor on, every press of every later batch has an id at or above it.
  consumed-Above :
      (es : List (Event r.Request)) (c : Cursor) (o : ℤ)
      → Persists r es
      → c.has_path ≡ true
      → Synced c
      → floor c ≡ some o
      → All (All (Above o)) (consumed r es c)
  unfolding consumed
  consumed-Above [] c o w h s f = tt
  consumed-Above (restarted ∷ es) c o w h s f =
      consumed-Above es (restart c) o w (restart-has_path c ∙ h) (restart-Synced c s) (s ∙ f)
  consumed-Above (poll p ∷ es) c o w h s f =
      let (n, f', le) = keeps.mono p c o f in
      let later =
        consumed-Above es (r.read p c).1 n w.1 (keeps.has_path p c ∙ h) (keeps.synced p c w.0 h s)
          f' in
      let weaker = All-map (All (Above n)) (All (Above o)) (λ b. All-weaken n o b le) _ later in
      All-keep_batch (All (Above o)) (r.consumes p) _ _ (keeps.above p c o f) weaker

  fresh_batch :
      (p : r.Request) (es : List (Event r.Request)) (c : Cursor)
      → r.persists p ≡ true
      → Persists r es
      → c.has_path ≡ true
      → Synced c
      → r.consumes p ≡ true
      → All
          (λ u. All (All (λ v. update_id u <ℤ update_id v)) (consumed r es (r.read p c).1))
          (presses (r.read p c).0)
  fresh_batch p es c w ws h s b = elim (keeps.past p c b) [
    | inl e ↦ rw e tt
    | inr (o, f, below) ↦
        let later =
          consumed-Above es (r.read p c).1 o ws (keeps.has_path p c ∙ h) (keeps.synced p c w h s)
            f in
        All-map (λ u. update_id u <ℤ o) _
          (λ u lt.
            All-map (All (Above o)) _
              (λ b. All-map (Above o) (λ v. update_id u <ℤ update_id v) (λ v ge. omega arith) b) _
              later)
          _ below
  ]

  -- In any history of consuming polls, peeks and restarts whose cursor writes succeed, an id that
  -- was handed out once is below every id handed out by any later consuming poll: no press is ever
  -- replayed, whatever the source of the presses answers at each poll and whatever since_id the callers pass.
  pub no_replay :
      (es : List (Event r.Request)) (c : Cursor)
      → Persists r es
      → c.has_path ≡ true
      → Synced c
      → NoReplay (consumed r es c)
  unfolding consumed
  no_replay [] c w h s = tt
  no_replay (restarted ∷ es) c w h s =
      no_replay es (restart c) w (restart-has_path c ∙ h) (restart-Synced c s)
  no_replay (poll p ∷ es) c w h s =
      NoReplay-keep_batch (r.consumes p) _ _ (fresh_batch p es c w.0 w.1 h s)
        (no_replay es (r.read p c).1 w.1 (keeps.has_path p c ∙ h) (keeps.synced p c w.0 h s))

  consumed-load_cursor :
      (es : List (Event r.Request)) (c : Cursor) → consumed r es (load_cursor c) ≡ consumed r es c
  unfolding consumed
  consumed-load_cursor [] c = refl
  consumed-load_cursor (restarted ∷ es) c = ap (consumed r es) (restart-load_cursor c)
  consumed-load_cursor (poll p ∷ es) c = rw (keeps.loads p c)

  -- A peek takes no press from anybody: every later consuming poll, over any further history, hands
  -- out what it would have handed out without the peek.
  pub peek_transparent :
      (p : r.Request) (es : List (Event r.Request)) (c : Cursor)
      → r.consumes p ≡ false
      → consumed r (poll p ∷ es) c ≡ consumed r es c
  unfolding consumed
  peek_transparent p es c h =
      keep-peek (r.consumes p) _ _ h
      ∙ ap (consumed r es) (keeps.peek p c h)
      ∙ consumed-load_cursor es c
