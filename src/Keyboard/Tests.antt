-- ===== src/Keyboard/Tests.antt =====
-- Runs of BuildInlineKeyboard, and the theorems at concrete inputs.
use better_telegram_mcp.Base.{◌≡◌, refl, [], ◌∷◌, String}
use better_telegram_mcp.Base.Text.{trim_space, rune_count, sort_texts}
use better_telegram_mcp.Base.Result.{ok, err}
use better_telegram_mcp.Value.{Value, int, text, list, object, stop, cons, end, field}
use better_telegram_mcp.Keyboard.{
  InlineKeyboard, build_inline_keyboard, normalize_rows, list_rows, as_string_map, field_or_empty,
  button_data, unsupported, parse_button, build_row, build_rows, all_data, duplicates,
  duplicate_data, refuse_duplicates, duplicate_data_error, text_required, row_not_a_list,
}
use better_telegram_mcp.Base.Int.{pos}
use better_telegram_mcp.Keyboard.Limits.{IsValid, build_inline_keyboard-IsValid}

abbrev button : String → String → Value
button label d = object (field "text" (text label) (field "data" (text d) end))

abbrev yes_or_no : Value
yes_or_no = list (cons (button "Yes" "DEC:yes") (cons (button "No" "DEC:no") stop))

abbrev asked : InlineKeyboard
asked =
    (record { label = "Yes"; callback_data = "DEC:yes" }
      ∷ record { label = "No"; callback_data = "DEC:no" }
      ∷ [])
    ∷ []

flat_row : build_inline_keyboard yes_or_no ≡ ok asked
unfolding build_inline_keyboard normalize_rows list_rows as_string_map field_or_empty button_data
    unsupported parse_button build_row build_rows all_data duplicates duplicate_data sort_texts
    refuse_duplicates trim_space rune_count
flat_row = refl

refusals :
    (build_inline_keyboard (list (cons (int (pos 1)) stop)) ≡ err (row_not_a_list 0))
    × (build_inline_keyboard (list (cons (button " " "d") stop)) ≡ err (text_required 0 0))
    × (build_inline_keyboard (list (cons (button "a" "d") (cons (button "b" "d") stop)))
        ≡ err (duplicate_data_error ("d" ∷ [])))
    × (build_inline_keyboard (list stop) ≡ ok [])
unfolding build_inline_keyboard normalize_rows list_rows as_string_map field_or_empty button_data
    unsupported parse_button build_row build_rows all_data duplicates duplicate_data sort_texts
    refuse_duplicates trim_space rune_count
refusals = (refl, refl, refl, refl)

build_inline_keyboard-IsValid_example : IsValid asked
build_inline_keyboard-IsValid_example = build_inline_keyboard-IsValid yes_or_no asked flat_row
