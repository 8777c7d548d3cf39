-- ===== src/Bot/Promises.antt =====
-- What the callback cursor promises to the two ways of reading presses.
use better_telegram_mcp.Base.{
  ◌≡◌, refl, ap, ◌⊎◌, inl, inr, Bool, true, false, Option, some, List, [], ◌∷◌, String, arith,
  Bool-cases,
}
use better_telegram_mcp.Base.Int.{ℤ, pos, ltb_ℤ, succ64}
use better_telegram_mcp.Value.{Map}
use better_telegram_mcp.Bot.Update.{Reply}
use better_telegram_mcp.Bot.Cursor.{Cursor, load_cursor, store_cursor}
use better_telegram_mcp.Bot.History.{Synced, HasRoom, Event, poll, consumed, Persists, NoReplay}
use better_telegram_mcp.Base.Int.{negsuc}
use better_telegram_mcp.Bot.History.Replay.{no_replay, peek_transparent}
use better_telegram_mcp.Bot.Queue.Steps.{queue_reader, queue_reader-KeepsCursor}
use better_telegram_mcp.Bot.Updates.{
  ApiReply, refused, local_failure, undecodable, updates, GetUpdates, highest_id, take_updates,
  after_answer, poll_updates,
}
use better_telegram_mcp.Bot.Updates.Steps.{Call, updates_reader, updates_reader-KeepsCursor}

-- Over the queue file: in any history of consuming polls, peeks and restarts whose cursor writes
-- succeed, started from a cursor that agrees with its file, every id handed out by a consuming poll
-- is below every id handed out by any later consuming poll, whatever the file holds at each poll and
-- whatever since_id the callers pass. So no press is handed out by two consuming polls. The ids of
-- the lines are at most 2 ^ 63 - 2.
pub queue-NoReplay :
    (decode : String → Option Map)
    → ((line : String) (u : Map) → decode line ≡ some u → HasRoom u)
    → (es : List (Event (queue_reader decode).Request)) (c : Cursor)
    → Persists (queue_reader decode) es
    → c.has_path ≡ true
    → Synced c
    → NoReplay (consumed (queue_reader decode) es c)
queue-NoReplay decode room es c =
    no_replay (queue_reader decode) (queue_reader-KeepsCursor decode room) es c

-- A peek at the queue file takes no press from anybody: every later consuming poll, over any further
-- history, hands out what it would have handed out without the peek. The ids of the lines are at
-- most 2 ^ 63 - 2.
pub queue_peek_transparent :
    (decode : String → Option Map)
    → ((line : String) (u : Map) → decode line ≡ some u → HasRoom u)
    → (p : (queue_reader decode).Request) (es : List (Event (queue_reader decode).Request))
      (c : Cursor)
    → p.consume ≡ false
    → consumed (queue_reader decode) (poll p ∷ es) c ≡ consumed (queue_reader decode) es c
queue_peek_transparent decode room p es c h =
    peek_transparent (queue_reader decode) (queue_reader-KeepsCursor decode room) p es c h

-- Over getUpdates, from a Telegram that gives positive ids below 2 ^ 63 - 1 and answers only with
-- updates at or above the offset asked for: in any history of consuming polls, peeks and restarts
-- whose cursor writes succeed, started from a cursor that agrees with its file, every id handed out
-- by a consuming poll is below every id handed out by any later consuming poll.
pub updates-NoReplay :
    (lower : String → String) (es : List (Event Call)) (c : Cursor)
    → Persists (updates_reader lower) es
    → c.has_path ≡ true
    → Synced c
    → NoReplay (consumed (updates_reader lower) es c)
updates-NoReplay lower es c =
    no_replay (updates_reader lower) (updates_reader-KeepsCursor lower) es c

-- What a poll sends after its first request: nothing, or one request with the new cursor.
abbrev pub Confirms : Bool → Reply × Cursor × List GetUpdates → Type 0
Confirms consume r =
    (r.2 ≡ [])
    ⊎ ((consume ≡ true) × (r.2 ≡ record { offset = r.1.callback_offset; limit = pos 1 } ∷ []))

store_cursor-offset :
    (persists : Bool) (o : ℤ) (c : Cursor) → some o ≡ (store_cursor persists o c).callback_offset
unfolding store_cursor
store_cursor-offset persists o c = ground arith

take_updates-Confirms :
    (consume persists : Bool) (us : List Map) (c : Cursor)
    → Confirms consume (take_updates consume persists us c)
unfolding take_updates
take_updates-Confirms false persists us c = inl refl
take_updates-Confirms true persists us c =
    elim (Bool-cases (ltb_ℤ (highest_id (negsuc 0) us) (pos 0))) [
      | inl b ↦ rw b (inl refl)
      | inr b ↦ rw b (
          inr (
            refl,
            ap (λ (x : Option ℤ). record { offset = x; limit = pos 1 } ∷ [])
                (store_cursor-offset persists (succ64 (highest_id (negsuc 0) us)) c),
          ))
    ]

after_answer-Confirms :
    (lower : String → String) (a : ApiReply) (consume persists : Bool) (c : Cursor)
    → Confirms consume (after_answer lower a consume persists c)
unfolding after_answer
after_answer-Confirms lower (refused e) consume persists c = inl refl
after_answer-Confirms lower local_failure consume persists c = inl refl
after_answer-Confirms lower undecodable consume persists c = inl refl
after_answer-Confirms lower (updates []) consume persists c = inl refl
after_answer-Confirms lower (updates (u ∷ us)) consume persists c =
    take_updates-Confirms consume persists (u ∷ us) c

-- After its first request a poll by getUpdates sends nothing more, or, if it consumes, exactly one
-- request: the one that confirms to Telegram the offset that its cursor now holds.
pub poll_updates-Confirms :
    (lower : String → String) (answer : Option ℤ → ℤ → ApiReply) (since_id : Option ℤ) (limit : ℤ)
    (consume persists : Bool) (c : Cursor)
    → Confirms consume (poll_updates lower answer since_id limit consume persists c)
unfolding poll_updates
poll_updates-Confirms lower answer since_id limit consume persists c =
    after_answer-Confirms lower _ consume persists (load_cursor c)
