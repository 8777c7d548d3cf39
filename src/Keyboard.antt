-- ===== src/Keyboard.antt =====
-- internal/telegram/keyboard.go: BuildInlineKeyboard maps the compact `buttons` payload of the tools
-- onto a Bot API keyboard, and refuses what the Bot API would refuse.
pub mod Duplicates
pub mod Limits
pub mod Encode
mod Tests
use Prim.Native.String.{len}
use better_telegram_mcp.Base.{
  ℕ, ◌+◌, ◌≡◌, Bool, true, false, not, ◌&&◌, ◌||◌, Option, none, some, List, [], ◌∷◌, ◌++◌, map,
  String, ltb, length, filter, all, if◌then◌else◌,
}
use better_telegram_mcp.Base.Text.{str_eq, trim_space, rune_count, contains, sort_texts}
use better_telegram_mcp.Base.Result.{Result, ok, err, ◌>>=◌, guard}
use better_telegram_mcp.Base.Dict
use better_telegram_mcp.Value.{
  Value, Map, list, object, strings, rows, text, items, fields, string_key,
}

-- The Bot API's limits.
abbrev pub max_callback_data_bytes : ℕ
max_callback_data_bytes = 64

abbrev pub max_buttons_per_row : ℕ
max_buttons_per_row = 8

abbrev pub max_rows : ℕ
max_rows = 100

abbrev pub max_buttons : ℕ
max_buttons = 100

abbrev pub max_button_text_chars : ℕ
max_button_text_chars = 64

-- KeyboardError, by the message that it carries, with the indexes that the message names.
pub data KeyboardError : Type 0 where
  not_a_list : KeyboardError
  row_not_a_list : ℕ → KeyboardError
  too_many_rows : ℕ → KeyboardError
  row_too_long : ℕ → ℕ → KeyboardError
  too_many_buttons : KeyboardError
  not_an_object : ℕ → ℕ → KeyboardError
  text_required : ℕ → ℕ → KeyboardError
  text_too_long : ℕ → ℕ → KeyboardError
  data_required : ℕ → ℕ → KeyboardError
  data_too_long : ℕ → ℕ → ℕ → KeyboardError
  unsupported_fields : ℕ → ℕ → List String → KeyboardError
  duplicate_data_error : List String → KeyboardError

pub record InlineButton : Type 0 where
  pub label : String
  pub callback_data : String

-- InlineKeyboard
abbrev pub InlineKeyboard : Type 0
InlineKeyboard = List (List InlineButton)

abbrev Checked : Type 0 → Type 0
Checked A = Result KeyboardError A

-- isMap
is_map : Value → Bool
is_map (object fs) = true
is_map (strings m) = true
is_map _ = false

list_row : ℕ → Value → Checked (List Value)
list_row i (list vs) = ok (items vs)
list_row i _ = err (row_not_a_list i)

-- the loop of normalizeRows over the items
unfoldable pub list_rows : ℕ → List Value → Checked (List (List Value))
unfolding list_row
list_rows i [] = ok []
list_rows i (v ∷ vs) = do row ← list_row i v; rest ← list_rows (i + 1) vs; ok (row ∷ rest)

-- `len(items) > 0 && allMaps(items)`
flat : List Value → Bool
flat [] = false
flat (v ∷ vs) = all is_map (v ∷ vs)

-- normalizeRows
unfoldable pub normalize_rows : Value → Checked (List (List Value))
unfolding flat is_map
normalize_rows (list vs) = if flat (items vs) then ok (items vs ∷ []) else list_rows 0 (items vs)
normalize_rows (rows rs) = ok (map (map strings) rs)
normalize_rows _ = err not_a_list

text_fields : Map → Option (List (String × String))
text_fields [] = some []
text_fields ((k, text s) ∷ m) = elim (text_fields m) [
  | none ↦ none
  | some rest ↦ some ((k, s) ∷ rest)
]
text_fields ((k, v) ∷ m) = none

-- asStringMap; `none` is its error
unfoldable pub as_string_map : Value → Option (List (String × String))
unfolding text_fields
as_string_map (strings m) = some m
as_string_map (object fs) = text_fields (fields fs)
as_string_map _ = none

-- m[key], "" where it is missing
unfoldable pub field_or_empty : String → List (String × String) → String
unfolding Dict.lookup
field_or_empty key m = elim (Dict.lookup key m) [ none ↦ "" | some s ↦ s ]

-- `data`, or its alias `callback_data` where `data` is missing or empty
unfoldable pub button_data : List (String × String) → String
button_data m =
    if str_eq (field_or_empty "data" m) ""
    then field_or_empty "callback_data" m
    else field_or_empty "data" m

is_known : String × String → Bool
is_known (k, v) = str_eq k "text" || str_eq k "data" || str_eq k "callback_data"

-- The keys of a button object that are not supported.
unfoldable pub unsupported : List (String × String) → List String
unfolding is_known
unsupported m = map (λ f. f.0) (filter (λ f. not (is_known f)) m)

refuse_unsupported : ℕ → ℕ → List String → InlineButton → Checked InlineButton
refuse_unsupported row i [] b = ok b
refuse_unsupported row i (k ∷ ks) b = err (unsupported_fields row i (sort_texts (k ∷ ks)))

check_button : ℕ → ℕ → List (String × String) → Checked InlineButton
unfolding refuse_unsupported
check_button row i m =
    let label = field_or_empty "text" m in
    let d = button_data m in
    guard (str_eq (trim_space label) "") (text_required row i) (
      guard (ltb max_button_text_chars (rune_count label)) (text_too_long row i) (
        guard (str_eq d "") (data_required row i) (
          guard (ltb max_callback_data_bytes (len d)) (data_too_long row i (len d)) (
            refuse_unsupported row i (unsupported m)
              (record { label = label; callback_data = d })))))

-- parseButton
unfoldable pub parse_button : ℕ → ℕ → Value → Checked InlineButton
unfolding check_button
parse_button row i raw = elim (as_string_map raw) [
  | none ↦ err (not_an_object row i)
  | some m ↦ check_button row i m
]

-- the inner loop: the buttons of one row
unfoldable pub build_row : ℕ → ℕ → List Value → Checked (List InlineButton)
build_row row i [] = ok []
build_row row i (raw ∷ raws) = do
  button ← parse_button row i raw
  rest ← build_row row (i + 1) raws
  ok (button ∷ rest)

-- the outer loop, with the number of buttons so far
unfoldable pub build_rows : ℕ → ℕ → List (List Value) → Checked InlineKeyboard
build_rows row total [] = ok []
build_rows row total (raws ∷ rest) =
    let tail = build_rows (row + 1) (total + length raws) rest in
    guard (ltb max_buttons_per_row (length raws)) (row_too_long row (length raws)) (
      guard (ltb max_buttons (total + length raws)) too_many_buttons
        (build_row row 0 raws >>= λ built. tail >>= λ built_rest. ok (built ∷ built_rest)))

-- The callback data of all buttons, in order.
unfoldable pub all_data : InlineKeyboard → List String
all_data [] = []
all_data (row ∷ rest) = map (λ b. b.callback_data) row ++ all_data rest

-- the loop of duplicateData: the data seen, and those seen twice
unfoldable pub duplicates : List String → List String → List String → List String
duplicates seen dupes [] = dupes
duplicates seen dupes (d ∷ ds) =
    duplicates (d ∷ seen)
      (if contains seen d then (if contains dupes d then dupes else d ∷ dupes) else dupes) ds

-- duplicateData
unfoldable pub duplicate_data : InlineKeyboard → List String
unfolding duplicates all_data
duplicate_data keyboard = sort_texts (duplicates [] [] (all_data keyboard))

unfoldable pub refuse_duplicates : List String → InlineKeyboard → Checked InlineKeyboard
refuse_duplicates [] keyboard = ok keyboard
refuse_duplicates (d ∷ ds) keyboard = err (duplicate_data_error (d ∷ ds))

-- BuildInlineKeyboard
unfoldable pub build_inline_keyboard : Value → Checked InlineKeyboard
build_inline_keyboard buttons = do
  raws ← normalize_rows buttons
  keyboard ← guard (ltb max_rows (length raws)) (too_many_rows (length raws)) (build_rows 0 0 raws)
  refuse_duplicates (duplicate_data keyboard) keyboard
