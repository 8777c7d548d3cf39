-- ===== src/Bot/Queue.antt =====
-- internal/telegram/bot.go: GetCallbackQueries and readQueue over the JSONL queue of presses.
pub mod Order
pub mod Finish
pub mod Steps
pub mod Selection
use Prim.Native.Char.{code}
use Prim.Native.String.{[] as empty, ◌∷◌ as char}
use better_telegram_mcp.Base.{
  ℕ, ◌≡◌, refl, Bool, true, false, not, ◌&&◌, Option, none, some, List, [], ◌∷◌, String, arith,
  ◌==◌, leb, ltb, length, take, filter, if◌then◌else◌,
}
use better_telegram_mcp.Base.Int.{ℤ, pos, negsuc, ltb_ℤ, succ64, pos_part}
use better_telegram_mcp.Base.Text.{str_eq, trim_space}
use better_telegram_mcp.Value.{Value, nil, Map, get, as_int}
use better_telegram_mcp.Bot.Update.{
  update_id, only_callbacks, last, Reply, handed, failed, queue_unreadable,
}
use better_telegram_mcp.Bot.Cursor.{
  Cursor, load_cursor, store_cursor, effective_offset, offset_value_int, clamp,
}

-- strings.Split(s, "\n")
split_lines_from : String → String → List String
split_lines_from line empty = line ∷ []
split_lines_from line (char c s) =
    let closed = line ∷ split_lines_from "" s in
    let longer = split_lines_from (Prim.Native.String.◌++◌ line (char c "")) s in
    if code c == 10 then closed else longer

unfoldable pub split_lines : String → List String
unfolding split_lines_from
split_lines s = split_lines_from "" s

-- `!ok || id < offset`: the line is skipped
unfoldable pub is_pending : ℤ → Map → Bool
is_pending offset update = elim (as_int (get "update_id" update)) [
  | none ↦ false
  | some id ↦ not (ltb_ℤ id offset)
]

-- sort.Slice by update_id
unfoldable pub insert_update : Map → List Map → List Map
insert_update u [] = u ∷ []
insert_update u (v ∷ vs) =
    if ltb_ℤ (update_id v) (update_id u) then v ∷ insert_update u vs else u ∷ v ∷ vs

unfoldable pub sort_updates : List Map → List Map
sort_updates [] = []
sort_updates (u ∷ us) = insert_update u (sort_updates us)

-- os.ReadFile of the queue
pub data QueueFile : Type 0 where
  missing : QueueFile
  unreadable : QueueFile
  content : String → QueueFile

-- The end of readQueue: a consuming read of some updates stores the id after the last one.
unfoldable pub finish : Bool → Bool → List Map → Cursor → Reply × Cursor
finish consume persists [] c = (handed (only_callbacks []), c)
finish consume persists (u ∷ us) c = (
  handed (only_callbacks (u ∷ us)),
  if consume then store_cursor persists (succ64 (update_id (last u us))) c else c,
)

-- `decode` is json.Unmarshal of one line into an object; `none` is a malformed line.
module _ (decode : String → Option Map) where
  -- the loop over the lines, each one trimmed, decoded and compared with the offset
  unfoldable pub parse_lines : ℤ → List String → List Map
  unfolding is_pending
  parse_lines offset [] = []
  parse_lines offset (line ∷ lines) =
      let rest = parse_lines offset lines in
      if str_eq (trim_space line) "" then rest else elim (decode (trim_space line)) [
        | none ↦ rest
        | some update ↦ if is_pending offset update then update ∷ rest else rest
      ]

  -- the presses that one call takes from the queue, before onlyCallbacks
  unfoldable pub select_updates : Option ℤ → ℕ → String → List Map
  unfolding parse_lines sort_updates
  select_updates offset limit raw =
      take limit (sort_updates (parse_lines (offset_value_int offset) (split_lines raw)))

  -- readQueue
  unfoldable pub read_queue : QueueFile → Option ℤ → ℕ → Bool → Bool → Cursor → Reply × Cursor
  read_queue missing offset limit consume persists c = (handed [], c)
  read_queue unreadable offset limit consume persists c = (failed queue_unreadable, c)
  read_queue (content raw) offset limit consume persists c =
      finish consume persists (select_updates offset limit raw) c

  -- GetCallbackQueries with a queue file configured
  unfoldable pub get_callback_queries :
      QueueFile → Option ℤ → ℤ → Bool → Bool → Cursor → Reply × Cursor
  unfolding read_queue
  get_callback_queries queue since_id limit consume persists c =
      let c' = load_cursor c in
      read_queue queue (effective_offset c'.callback_offset since_id)
        (pos_part (clamp limit (pos 1) (pos 100))) consume persists c'
