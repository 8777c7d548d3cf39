-- ===== src/Keyboard/Limits.antt =====
-- Every keyboard that BuildInlineKeyboard returns keeps the Bot API's limits.
use Prim.Native.String.{len}
use better_telegram_mcp.Base.{
  ℕ, ◌+◌, ◌≤◌, ◌≡◌, refl, false, List, [], ◌∷◌, String, arith, All, Option-cases, inl, inr, length,
  ltb,
}
use better_telegram_mcp.Base.Text.{str_eq, trim_space, rune_count}
use better_telegram_mcp.Base.Result.{ok, ◌>>=◌, guard, >>=-eq-ok, guard-eq-ok}
use better_telegram_mcp.Value.{Value}
use better_telegram_mcp.Keyboard.{
  InlineButton, InlineKeyboard, max_rows, max_buttons, max_buttons_per_row, max_callback_data_bytes,
  max_button_text_chars, too_many_buttons, row_too_long, too_many_rows, as_string_map, check_button,
  refuse_unsupported, parse_button, build_row, build_rows, normalize_rows, duplicate_data,
  refuse_duplicates, build_inline_keyboard, all_data,
}
use better_telegram_mcp.Keyboard.Duplicates.{Distinct, duplicate_data-Distinct}

pub record IsValidButton (b : InlineButton) : Type 0 where
  pub has_label : str_eq (trim_space b.label) "" ≡ false
  pub short_label : rune_count b.label ≤ max_button_text_chars
  pub has_data : str_eq b.callback_data "" ≡ false
  pub short_data : len b.callback_data ≤ max_callback_data_bytes

abbrev pub buttons_in : InlineKeyboard → ℕ
buttons_in [] = 0
buttons_in (row ∷ rest) = length row + buttons_in rest

pub record IsValid (keyboard : InlineKeyboard) : Type 0 where
  pub rows_fit : length keyboard ≤ max_rows
  pub each_row_fits : All (λ row. length row ≤ max_buttons_per_row) keyboard
  pub buttons_fit : buttons_in keyboard ≤ max_buttons
  pub each_button : All (All IsValidButton) keyboard
  pub distinct : Distinct (all_data keyboard)

check_button-IsValidButton :
    (row i : ℕ) (m : List (String × String)) (b : InlineButton)
    → check_button row i m ≡ ok b
    → IsValidButton b
unfolding check_button refuse_unsupported
check_button-IsValidButton row i m b h = record {
  has_label = ground arith;
  short_label = ground arith;
  has_data = ground arith;
  short_data = ground arith;
}

parse_button-IsValidButton :
    (row i : ℕ) (raw : Value) (b : InlineButton) → parse_button row i raw ≡ ok b → IsValidButton b
unfolding parse_button
parse_button-IsValidButton row i raw b h = elim (Option-cases (as_string_map raw)) [
  | inl e ↦ absurd (cc (rw (e, parse_button) at h))
  | inr (m, e) ↦ check_button-IsValidButton row i m b (rw (e, parse_button) at h)
]

build_row_lem :
    (row i : ℕ) (raws : List Value) (bs : List InlineButton)
    → build_row row i raws ≡ ok bs
    → All IsValidButton bs × (length bs ≡ length raws)
unfolding build_row
build_row_lem row i [] bs h = let e : [] ≡ bs = cc in rw (← e) (tt, refl)
build_row_lem row i (raw ∷ raws) bs h =
    let (b, h1, r1) = >>=-eq-ok (parse_button row i raw) _ h in
    let (rest, h2, r2) = >>=-eq-ok (build_row row (i + 1) raws) _ r1 in
    let (v, l) = build_row_lem row (i + 1) raws rest h2 in
    let e : b ∷ rest ≡ bs = cc in
    rw (← e) ((parse_button-IsValidButton row i raw b h1, v), omega arith)

-- What build_rows promises of the rows that it has built, above `total` buttons.
record Built (total n : ℕ) (keyboard : InlineKeyboard) : Type 0 where
  rows_fit : length keyboard ≡ n
  each_row_fits : All (λ row. length row ≤ max_buttons_per_row) keyboard
  buttons_fit : total + buttons_in keyboard ≤ max_buttons
  each_button : All (All IsValidButton) keyboard

build_rows-Built :
    (row total : ℕ) (raws : List (List Value)) (keyboard : InlineKeyboard)
    → total ≤ max_buttons
    → build_rows row total raws ≡ ok keyboard
    → Built total (length raws) keyboard
unfolding build_rows
build_rows-Built row total [] keyboard t h =
    let e : [] ≡ keyboard = cc in
    rw (← e)
      (record { rows_fit = refl; each_row_fits = tt; buttons_fit = omega arith; each_button = tt })
build_rows-Built row total (raws ∷ rest) keyboard t h =
    let tail = build_rows (row + 1) (total + length raws) rest in
    let join = build_row row 0 raws >>= λ built. tail >>= λ built_rest. ok (built ∷ built_rest) in
    let all_fit = guard (ltb max_buttons (total + length raws)) too_many_buttons join in
    let (h1, r1) =
      guard-eq-ok (ltb max_buttons_per_row (length raws)) (row_too_long row (length raws)) all_fit
        h in
    let (h2, r2) = guard-eq-ok (ltb max_buttons (total + length raws)) too_many_buttons join r1 in
    let (bs, h3, r3) = >>=-eq-ok (build_row row 0 raws) _ r2 in
    let (ks, h4, r4) = >>=-eq-ok (build_rows (row + 1) (total + length raws) rest) _ r3 in
    let le : total + length raws ≤ max_buttons = ground arith in
    let below = build_rows-Built (row + 1) (total + length raws) rest ks le h4 in
    let (v, l) = build_row_lem row 0 raws bs h3 in
    let e : bs ∷ ks ≡ keyboard = cc in
    rw (← e) (record {
      rows_fit = omega (arith, below.rows_fit);
      each_row_fits = (ground arith, below.each_row_fits);
      buttons_fit = omega (arith, below.buttons_fit);
      each_button = (v, below.each_button);
    })

refuse_duplicates-eq-ok :
    (ds : List String) (k k' : InlineKeyboard)
    → refuse_duplicates ds k ≡ ok k'
    → (ds ≡ []) × (k ≡ k')
unfolding refuse_duplicates
refuse_duplicates-eq-ok [] k k' h = (refl, cc)
refuse_duplicates-eq-ok (d ∷ ds) k k' h = absurd (cc)

-- Every keyboard that BuildInlineKeyboard returns has at most 100 rows of at most 8 buttons and at
-- most 100 buttons in all; every button has a label of at most 64 characters that is not blank, and
-- callback data of 1 to 64 bytes; and no two buttons have the same callback data.
pub build_inline_keyboard-IsValid :
    (buttons : Value) (keyboard : InlineKeyboard)
    → build_inline_keyboard buttons ≡ ok keyboard
    → IsValid keyboard
unfolding build_inline_keyboard
build_inline_keyboard-IsValid buttons keyboard h =
    let (raws, h1, r1) = >>=-eq-ok (normalize_rows buttons) _ h in
    let e = too_many_rows (length raws) in
    let (k, h2, r2) = >>=-eq-ok (guard (ltb max_rows (length raws)) e (build_rows 0 0 raws)) _ r1 in
    let (h3, r3) = guard-eq-ok (ltb max_rows (length raws)) e (build_rows 0 0 raws) h2 in
    let built = build_rows-Built 0 0 raws k (omega arith) r3 in
    let (d, same) = refuse_duplicates-eq-ok (duplicate_data k) k keyboard r2 in
    rw (← same) (record {
      rows_fit = ground (arith, built.rows_fit);
      each_row_fits = built.each_row_fits;
      buttons_fit = omega (arith, built.buttons_fit);
      each_button = built.each_button;
      distinct = duplicate_data-Distinct k d;
    })
