-- ===== src/Bot/Updates/Steps.antt =====
-- getUpdates as a reader of presses. What the reader relies on is what Telegram documents: ids are
-- positive, and an answer holds only updates at or above the offset that was asked for.
use better_telegram_mcp.Base.{
  ◌≡◌, refl, sym, ap, ◌∙◌, ◌⊎◌, Bool, true, false, Option, some, List, [], String, All,
}
use better_telegram_mcp.Base.Int.{ℤ, pos, ◌≤ℤ◌, ◌<ℤ◌}
use better_telegram_mcp.Value.{Map}
use better_telegram_mcp.Bot.Update.{update_id, Reply}
use better_telegram_mcp.Bot.Cursor.{Cursor, load_cursor, store_cursor, effective_offset, clamp}
use mathlib.Core.Path.{subst}
use better_telegram_mcp.Bot.Updates.{ApiReply, updates, poll_updates}
use better_telegram_mcp.Bot.History.{floor, Synced, presses, Above, Reader, KeepsCursor}
use better_telegram_mcp.Bot.History.Floor.{
  effective-le, store_cursor-Synced, load_cursor-Synced, has_path-load, has_path-store, All-weaken,
  load_cursor_idem,
}
use better_telegram_mcp.Bot.Updates.Answer.{answer-Above, answer_mono, answer_past, answer-state}
use better_telegram_mcp.Bot.Updates.Highest.{HasId}

-- One call of GetCallbackQueries, with Telegram's side of it.
pub record Call : Type 0 where
  pub answer : Option ℤ → ℤ → ApiReply
  pub since_id : Option ℤ
  pub limit : ℤ
  pub consume : Bool
  pub persists : Bool
  pub ids : (o : Option ℤ) (n : ℤ) (us : List Map) → answer o n ≡ updates us → All HasId us
  pub honoured : (o n : ℤ) (us : List Map) → answer (some o) n ≡ updates us → All (Above o) us

module _ (lower : String → String) where
  unfoldable pub call_telegram : Call → Cursor → Reply × Cursor
  call_telegram p c =
      let r = poll_updates lower p.answer p.since_id p.limit p.consume p.persists c in (r.0, r.1)

  abbrev pub updates_reader : Reader
  updates_reader = record {
    Request = Call;
    consumes = λ p. p.consume;
    persists = λ p. p.persists;
    read = call_telegram;
  }

  -- What Telegram answers to one call.
  abbrev answer_of : Call → Cursor → ApiReply
  answer_of p c =
      p.answer (effective_offset (load_cursor c).callback_offset p.since_id)
        (clamp p.limit (pos 1) (pos 100))

  honoured_from :
      (p : Call) (c : Cursor) (o : ℤ)
      → floor c ≡ some o
      → (us : List Map) → answer_of p c ≡ updates us
      → All (Above o) us
  honoured_from p c o f us h =
      let (e, eq, le) = effective-le o p.since_id in
      let start = ap (λ (x : Option ℤ). effective_offset x p.since_id) f ∙ eq in
      let n = clamp p.limit (pos 1) (pos 100) in
      All-weaken e o us le (p.honoured e n us (sym (ap (λ (x : Option ℤ). p.answer x n) start) ∙ h))

  call-loads : (p : Call) (c : Cursor) → call_telegram p (load_cursor c) ≡ call_telegram p c
  unfolding call_telegram poll_updates
  call-loads p c = rw (load_cursor_idem c)

  call-peek : (p : Call) (c : Cursor) → p.consume ≡ false → (call_telegram p c).1 ≡ load_cursor c
  unfolding call_telegram poll_updates
  call-peek p c h =
      answer-state lower (λ d. d ≡ load_cursor c) (answer_of p c) p.consume p.persists
        (load_cursor c) (p.ids _ _) refl (λ o k. cc (h, k))

  call-Synced :
      (p : Call) (c : Cursor)
      → p.persists ≡ true
      → c.has_path ≡ true
      → Synced c
      → Synced (call_telegram p c).1
  unfolding call_telegram poll_updates
  call-Synced p c w h s =
      answer-state lower Synced (answer_of p c) p.consume p.persists (load_cursor c) (p.ids _ _)
        (load_cursor-Synced c s)
        (λ o k.
          subst (λ b. Synced (store_cursor b o (load_cursor c))) (sym w)
            (store_cursor-Synced o c h))

  call-has_path : (p : Call) (c : Cursor) → (call_telegram p c).1.has_path ≡ c.has_path
  unfolding call_telegram poll_updates
  call-has_path p c =
      answer-state lower (λ d. d.has_path ≡ c.has_path) (answer_of p c) p.consume p.persists
        (load_cursor c) (p.ids _ _) (has_path-load c)
        (λ o k. has_path-store p.persists o (load_cursor c) ∙ has_path-load c)

  call-Above :
      (p : Call) (c : Cursor) (o : ℤ)
      → floor c ≡ some o
      → All (Above o) (presses (call_telegram p c).0)
  unfolding call_telegram poll_updates
  call-Above p c o f =
      answer-Above lower (answer_of p c) p.consume p.persists (load_cursor c) o
        (honoured_from p c o f)

  call_mono :
      (p : Call) (c : Cursor) (o : ℤ)
      → floor c ≡ some o
      → (n : ℤ) × (floor (call_telegram p c).1 ≡ some n) × (o ≤ℤ n)
  unfolding call_telegram poll_updates
  call_mono p c o f =
      answer_mono lower (answer_of p c) p.consume p.persists c o (p.ids _ _) (honoured_from p c o f)
        f

  call_past :
      (p : Call) (c : Cursor)
      → p.consume ≡ true
      → (presses (call_telegram p c).0 ≡ [])
        ⊎ ((o : ℤ) × (floor (call_telegram p c).1 ≡ some o)
            × All (λ v. update_id v <ℤ o) (presses (call_telegram p c).0))
  unfolding call_telegram poll_updates
  call_past p c h = answer_past lower (answer_of p c) p.consume p.persists c (p.ids _ _) h

  -- getUpdates is a reader that keeps the cursor's laws.
  pub updates_reader-KeepsCursor : KeepsCursor updates_reader
  updates_reader-KeepsCursor = record {
    above = call-Above;
    mono = call_mono;
    past = call_past;
    synced = call-Synced;
    has_path = call-has_path;
    peek = call-peek;
    loads = call-loads;
  }
