-- ===== src/Bot/Queue/Steps.antt =====
-- The queue file as a reader of presses: what one poll of it does to the next offset.
use better_telegram_mcp.Base.{
  ℕ, ◌≡◌, refl, ap, ◌∙◌, ◌⊎◌, inl, Bool, true, false, Option, some, [], ◌∷◌, String, arith, All,
}
use better_telegram_mcp.Base.Int.{ℤ, ◌≤ℤ◌, ◌<ℤ◌}
use better_telegram_mcp.Value.{Map}
use better_telegram_mcp.Bot.Update.{update_id, Reply}
use better_telegram_mcp.Bot.Cursor.{Cursor, load_cursor, effective_offset, offset_value_int}
use better_telegram_mcp.Bot.Queue.{
  select_updates, QueueFile, missing, unreadable, content, read_queue, get_callback_queries, finish,
}
use better_telegram_mcp.Bot.Queue.Order.{
  only_callbacks-All, select_updates-Above, select_updates-All, select_updates-Ascending,
}
use better_telegram_mcp.Bot.Queue.Finish.{
  finish_past, finish_mono, finish-Synced, finish-has_path, finish-presses,
}
use better_telegram_mcp.Bot.History.{floor, Synced, presses, HasRoom, Above, Reader, KeepsCursor}
use better_telegram_mcp.Bot.History.Floor.{
  effective-le, floor-load, load_cursor-Synced, has_path-load, All-weaken, load_cursor_idem,
}

-- One call of GetCallbackQueries, with what the disk held and whether the cursor could be written.
pub record Poll : Type 0 where
  pub queue : QueueFile
  pub since_id : Option ℤ
  pub limit : ℤ
  pub consume : Bool
  pub persists : Bool

unfoldable pub step : (String → Option Map) → Poll → Cursor → Reply × Cursor
step decode p c = get_callback_queries decode p.queue p.since_id p.limit p.consume p.persists c

abbrev pub queue_reader : (String → Option Map) → Reader
queue_reader decode = record {
  Request = Poll;
  consumes = λ p. p.consume;
  persists = λ p. p.persists;
  read = step decode;
}

module _ (decode : String → Option Map)
    (room : (line : String) (u : Map) → decode line ≡ some u → HasRoom u) where
  read-Above :
      (q : QueueFile) (x : Option ℤ) (o e : ℤ) (limit : ℕ) (consume persists : Bool) (c : Cursor)
      → x ≡ some e
      → o ≤ℤ e
      → All (Above o) (presses (read_queue decode q x limit consume persists c).0)
  unfolding read_queue offset_value_int
  read-Above missing x o e limit consume persists c eq le = tt
  read-Above unreadable x o e limit consume persists c eq le = tt
  read-Above (content raw) x o e limit consume persists c eq le =
      rw (eq, finish-presses)
        (only_callbacks-All (Above o) _
          (All-weaken e o _ le (select_updates-Above decode (some e) limit raw)))

  read_mono :
      (q : QueueFile) (x : Option ℤ) (o e : ℤ) (limit : ℕ) (consume persists : Bool) (c : Cursor)
      → x ≡ some e
      → o ≤ℤ e
      → floor c ≡ some o
      → (n : ℤ) × (floor (read_queue decode q x limit consume persists (load_cursor c)).1 ≡ some n)
        × (o ≤ℤ n)
  unfolding read_queue offset_value_int
  read_mono missing x o e limit consume persists c eq le h = (o, floor-load c ∙ h, omega arith)
  read_mono unreadable x o e limit consume persists c eq le h = (o, floor-load c ∙ h, omega arith)
  read_mono (content raw) x o e limit consume persists c eq le h = rw eq (
      finish_mono consume persists _ c o (select_updates-All decode HasRoom room (some e) limit raw)
        (All-weaken e o _ le (select_updates-Above decode (some e) limit raw)) h)

  read_past :
      (q : QueueFile) (e : Option ℤ) (limit : ℕ) (consume persists : Bool) (c : Cursor)
      → consume ≡ true
      → (presses (read_queue decode q e limit consume persists (load_cursor c)).0 ≡ [])
        ⊎ ((o : ℤ) × (floor (read_queue decode q e limit consume persists (load_cursor c)).1
              ≡ some o)
            × All
                (λ v. update_id v <ℤ o)
                (presses (read_queue decode q e limit consume persists (load_cursor c)).0))
  unfolding read_queue
  read_past missing e limit consume persists c h = inl refl
  read_past unreadable e limit consume persists c h = inl refl
  read_past (content raw) e limit consume persists c h = rw h (
      finish_past persists _ c (select_updates-Ascending decode e limit raw)
        (select_updates-All decode HasRoom room e limit raw))

  read-Synced :
      (q : QueueFile) (e : Option ℤ) (limit : ℕ) (consume : Bool) (c : Cursor)
      → c.has_path ≡ true
      → Synced c
      → Synced (read_queue decode q e limit consume true (load_cursor c)).1
  unfolding read_queue
  read-Synced missing e limit consume c h s = load_cursor-Synced c s
  read-Synced unreadable e limit consume c h s = load_cursor-Synced c s
  read-Synced (content raw) e limit consume c h s = finish-Synced consume _ c h s

  read-has_path :
      (q : QueueFile) (e : Option ℤ) (limit : ℕ) (consume persists : Bool) (c : Cursor)
      → (read_queue decode q e limit consume persists (load_cursor c)).1.has_path ≡ c.has_path
  unfolding read_queue
  read-has_path missing e limit consume persists c = has_path-load c
  read-has_path unreadable e limit consume persists c = has_path-load c
  read-has_path (content raw) e limit consume persists c = finish-has_path consume persists _ c

  step-Above :
      (p : Poll) (c : Cursor) (o : ℤ)
      → floor c ≡ some o
      → All (Above o) (presses (step decode p c).0)
  unfolding step get_callback_queries
  step-Above p c o h =
      let (e, eq, le) = effective-le o p.since_id in
      let start = ap (λ (x : Option ℤ). effective_offset x p.since_id) h ∙ eq in
      read-Above p.queue _ o e _ p.consume p.persists (load_cursor c) start le

  step_mono :
      (p : Poll) (c : Cursor) (o : ℤ)
      → floor c ≡ some o
      → (n : ℤ) × (floor (step decode p c).1 ≡ some n) × (o ≤ℤ n)
  unfolding step get_callback_queries
  step_mono p c o h =
      let (e, eq, le) = effective-le o p.since_id in
      let start = ap (λ (x : Option ℤ). effective_offset x p.since_id) h ∙ eq in
      read_mono p.queue _ o e _ p.consume p.persists c start le h

  step_past :
      (p : Poll) (c : Cursor)
      → p.consume ≡ true
      → (presses (step decode p c).0 ≡ [])
        ⊎ ((o : ℤ) × (floor (step decode p c).1 ≡ some o)
            × All (λ v. update_id v <ℤ o) (presses (step decode p c).0))
  unfolding step get_callback_queries
  step_past p c h = read_past p.queue _ _ p.consume p.persists c h

  step-Synced :
      (p : Poll) (c : Cursor)
      → p.persists ≡ true
      → c.has_path ≡ true
      → Synced c
      → Synced (step decode p c).1
  unfolding step get_callback_queries
  step-Synced p c w h s = rw w (read-Synced p.queue _ _ p.consume c h s)

  step-has_path : (p : Poll) (c : Cursor) → (step decode p c).1.has_path ≡ c.has_path
  unfolding step get_callback_queries
  step-has_path p c = read-has_path p.queue _ _ p.consume p.persists c

  read-peek :
      (q : QueueFile) (x : Option ℤ) (n : ℕ) (persists : Bool) (c : Cursor)
      → (read_queue decode q x n false persists c).1 ≡ c
  unfolding read_queue finish
  read-peek missing x n persists c = refl
  read-peek unreadable x n persists c = refl
  read-peek (content raw) x n persists c =
      elim (select_updates decode x n raw) as (λ us. (finish false persists us c).1 ≡ c) [
        | [] ↦ refl
        | u ∷ us ↦ refl
      ]

  step-peek : (p : Poll) (c : Cursor) → p.consume ≡ false → (step decode p c).1 ≡ load_cursor c
  unfolding step get_callback_queries
  step-peek p c h = rw h (read-peek p.queue _ _ p.persists (load_cursor c))

  step-load_cursor : (p : Poll) (c : Cursor) → step decode p (load_cursor c) ≡ step decode p c
  unfolding step get_callback_queries
  step-load_cursor p c = rw (load_cursor_idem c)

  -- The queue file is a reader that keeps the cursor's laws.
  pub queue_reader-KeepsCursor : KeepsCursor (queue_reader decode)
  queue_reader-KeepsCursor = record {
    above = step-Above;
    mono = step_mono;
    past = step_past;
    synced = step-Synced;
    has_path = step-has_path;
    peek = step-peek;
    loads = step-load_cursor;
  }
