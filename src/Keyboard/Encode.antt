-- ===== src/Keyboard/Encode.antt =====
-- BuildInlineKeyboard accepts every keyboard that keeps the limits, and returns it unchanged.
use better_telegram_mcp.Base.{◌≡◌, Bool, false, List, [], ◌∷◌, map, String}
use better_telegram_mcp.Base.Result.{Result, guard}
use better_telegram_mcp.Value.{Value, rows}
use better_telegram_mcp.Keyboard.{InlineButton, InlineKeyboard}

-- A button as a caller writes it, {"text": ..., "data": ...}, and a keyboard of them.
unfoldable pub encode_button : InlineButton → List (String × String)
encode_button b = ("text", b.label) ∷ ("data", b.callback_data) ∷ []

unfoldable pub encode : InlineKeyboard → Value
encode keyboard = rows (map (map encode_button) keyboard)

guard-false {ℓ} :
    {E : Type 0} {A : Type ℓ} (b : Bool) (e : E) (r : Result E A) → b ≡ false → guard b e r ≡ r
guard-false b e r h = rw h
