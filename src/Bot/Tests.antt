-- ===== src/Bot/Tests.antt =====
-- Runs of the callback cursor and the queue, and the theorems at concrete inputs.
use mathlib.Core.List.{Perm}
use better_telegram_mcp.Base.{
  ℕ, ◌≤◌, ◌≡◌, refl, inl, inr, Bool, true, false, Option, none, some, List, [], ◌∷◌, ◌++◌, String,
  arith, if◌then◌else◌, length, All, Bool-cases,
}
use better_telegram_mcp.Base.Int.{ℤ, pos, ltb_ℤ, succ64}
use better_telegram_mcp.Base.Text.{str_eq, trim_space}
use better_telegram_mcp.Value.{int, text, Map, get, as_int, string_key}
use better_telegram_mcp.Bot.Update.{update_id, only_callbacks}
use better_telegram_mcp.Bot.Cursor.{
  Cursor, missing, restart, load_cursor, store_cursor, effective_offset, offset_value_int, clamp,
}
use better_telegram_mcp.Bot.Queue.{
  content, get_callback_queries, select_updates, parse_lines, split_lines, read_queue, finish,
  sort_updates, insert_update, is_pending,
}
use better_telegram_mcp.Bot.History.{
  Event, poll, restarted, HasRoom, Above, consumed, presses, Reader, Synced, NoReplay,
}
use better_telegram_mcp.Bot.Queue.Steps.{Poll, step, queue_reader}
use better_telegram_mcp.Bot.Queue.Selection.{Before, step-bounded, select_updates_lossless}
use better_telegram_mcp.Bot.Updates.{ApiReply, updates, poll_updates}
use better_telegram_mcp.Bot.Updates.Highest.{HasId}
use better_telegram_mcp.Bot.Updates.Steps.{Call, updates_reader}
use better_telegram_mcp.Bot.Promises.{
  queue-NoReplay, queue_peek_transparent, updates-NoReplay, Confirms, poll_updates-Confirms,
}

abbrev press : ℕ → Map
press n = ("update_id", int (pos n)) ∷ ("callback_query", text "q") ∷ []

-- A decoder of two lines; every other line is malformed.
abbrev two_lines : String → Option Map
two_lines line =
    if str_eq line "five"
    then some (press 5)
    else if str_eq line "seven"
    then some (press 7)
    else none

two_lines-HasRoom : (line : String) (u : Map) → two_lines line ≡ some u → HasRoom u
unfolding update_id get as_int
two_lines-HasRoom line u h = ground arith

abbrev fresh : Cursor
fresh = record { callback_offset = none; cursor_loaded = false; has_path = true; file = missing }

fresh-Synced : Synced fresh
unfolding restart
fresh-Synced = refl

abbrev read_all : Bool → Poll
read_all consume = record {
  queue = content "seven\nbroken\n five \n";
  since_id = none;
  limit = pos 20;
  consume = consume;
  persists = true;
}

abbrev reader : Reader
reader = queue_reader two_lines

abbrev day : List (Event Poll)
day = poll (read_all false) ∷ poll (read_all true) ∷ restarted ∷ poll (read_all true) ∷ []

day_consumes : consumed reader day fresh ≡ (press 5 ∷ press 7 ∷ []) ∷ [] ∷ []
unfolding consumed step get_callback_queries read_queue finish select_updates parse_lines
    load_cursor store_cursor restart effective_offset offset_value_int clamp split_lines
    only_callbacks update_id get as_int succ64 sort_updates insert_update is_pending trim_space
day_consumes = refl

queue-NoReplay_example : NoReplay (consumed reader day fresh)
queue-NoReplay_example =
    queue-NoReplay two_lines two_lines-HasRoom day fresh (refl, (refl, (refl, tt))) refl
      fresh-Synced

step-bounded_example : length (presses (step two_lines (read_all true) fresh).0) ≤ 100
step-bounded_example = step-bounded two_lines (read_all true) fresh

queue_peek_transparent_example :
    consumed reader day fresh
    ≡ consumed reader (poll (read_all true) ∷ restarted ∷ poll (read_all true) ∷ []) fresh
queue_peek_transparent_example =
    queue_peek_transparent two_lines two_lines-HasRoom (read_all false)
      (poll (read_all true) ∷ restarted ∷ poll (read_all true) ∷ []) fresh refl

select_updates_lossless_example :
    (rest : List Map) × Perm
      (select_updates two_lines none 1 "seven\nfive" ++ rest)
      (parse_lines two_lines (offset_value_int none) (split_lines "seven\nfive"))
    × All (Before rest) (select_updates two_lines none 1 "seven\nfive")
select_updates_lossless_example = select_updates_lossless two_lines none 1 "seven\nfive"

-- A Telegram with one pending press, 5.
abbrev one_press : Option ℤ → ℤ → ApiReply
one_press none n = updates (press 5 ∷ [])
one_press (some o) n = if ltb_ℤ (pos 5) o then updates [] else updates (press 5 ∷ [])

one_press-ids : (o : Option ℤ) (n : ℤ) (us : List Map) → one_press o n ≡ updates us → All HasId us
unfolding get as_int
one_press-ids none n us h = let e : us ≡ press 5 ∷ [] = cc in rw e ((5, refl, omega arith), tt)
one_press-ids (some o) n us h = elim (Bool-cases (ltb_ℤ (pos 5) o)) [
  | inl b ↦ let e : us ≡ [] = ground arith in rw e tt
  | inr b ↦ let e : us ≡ press 5 ∷ [] = ground arith in rw e ((5, refl, omega arith), tt)
]

one_press-honoured :
    (o n : ℤ) (us : List Map) → one_press (some o) n ≡ updates us → All (Above o) us
unfolding update_id get as_int
one_press-honoured o n us h = elim (Bool-cases (ltb_ℤ (pos 5) o)) [
  | inl b ↦ let e : us ≡ [] = ground arith in rw e tt
  | inr b ↦ let e : us ≡ press 5 ∷ [] = ground arith in rw e (ground arith, tt)
]

abbrev ask : Call
ask = record {
  answer = one_press;
  since_id = none;
  limit = pos 20;
  consume = true;
  persists = true;
  ids = one_press-ids;
  honoured = one_press-honoured;
}

abbrev same : String → String
same s = s

updates-NoReplay_example :
    NoReplay (consumed (updates_reader same) (poll ask ∷ restarted ∷ poll ask ∷ []) fresh)
updates-NoReplay_example =
    updates-NoReplay same (poll ask ∷ restarted ∷ poll ask ∷ []) fresh (refl, (refl, tt)) refl
      fresh-Synced

poll_updates-Confirms_example :
    Confirms true (poll_updates same one_press none (pos 20) true true fresh)
poll_updates-Confirms_example = poll_updates-Confirms same one_press none (pos 20) true true fresh
