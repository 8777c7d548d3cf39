-- ===== src/Bot/Cursor.antt =====
-- internal/telegram/bot.go: the callback cursor (callbackOffset, cursorLoaded, the cursor file) with
-- loadCursor and storeCursor, and how GetCallbackQueries combines it with the caller's since_id.
use better_telegram_mcp.Base.{Bool, true, false, Option, none, some, if◌then◌else◌}
use better_telegram_mcp.Base.Int.{ℤ, pos, ltb_ℤ, succ64}

-- What os.ReadFile and json.Unmarshal find at cursorPath. `stored none` is `{"offset": null}`, or an
-- object with no offset.
pub data CursorFile : Type 0 where
  missing : CursorFile
  unreadable : CursorFile
  stored : Option ℤ → CursorFile

-- One backend's cursor. `has_path` says that cursorPath is not empty; `file` is the disk, which
-- outlives the backend.
pub record Cursor : Type 0 where
  pub callback_offset : Option ℤ
  pub cursor_loaded : Bool
  pub has_path : Bool
  pub file : CursorFile

-- a fresh BotBackend over the same disk
unfoldable pub restart : Cursor → Cursor
restart c = record c { callback_offset = none; cursor_loaded = false }

abbrev loaded_offset : Option ℤ → CursorFile → Option ℤ
loaded_offset old missing = old
loaded_offset old unreadable = old
loaded_offset old (stored offset) = offset

-- loadCursor
unfoldable pub load_cursor : Cursor → Cursor
load_cursor c =
    if c.cursor_loaded
    then c
    else if c.has_path
    then record c { cursor_loaded = true; callback_offset = loaded_offset c.callback_offset c.file }
    else record c { cursor_loaded = true }

-- storeCursor. `persists` says whether the directory, the write and the rename all succeeded; the
-- rename makes the replacement atomic, so a failure leaves the old file.
unfoldable pub store_cursor : Bool → ℤ → Cursor → Cursor
store_cursor persists offset c =
    if c.has_path
    then record c {
      callback_offset = some offset;
      file = if persists then stored (some offset) else c.file;
    }
    else record c { callback_offset = some offset }

-- `offset == nil || next > *offset`
abbrev moves_forward : Option ℤ → ℤ → Bool
moves_forward none next = true
moves_forward (some offset) next = ltb_ℤ offset next

-- The offset of one call: a caller-supplied cursor may only move forward.
unfoldable pub effective_offset : Option ℤ → Option ℤ → Option ℤ
effective_offset offset none = offset
effective_offset offset (some since_id) =
    if moves_forward offset (succ64 since_id) then some (succ64 since_id) else offset

-- clamp
unfoldable pub clamp : ℤ → ℤ → ℤ → ℤ
clamp value low high = if ltb_ℤ value low then low else if ltb_ℤ high value then high else value

-- offsetValueInt
unfoldable pub offset_value_int : Option ℤ → ℤ
offset_value_int none = pos 0
offset_value_int (some offset) = offset
