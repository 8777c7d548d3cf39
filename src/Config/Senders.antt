-- ===== src/Config/Senders.antt =====
-- internal/config/config.go: parseSenders, and the operations of Go's package strings it needs.
use Prim.Native.Char.{code}
use Prim.Native.String.{[] as empty, ◌∷◌ as char}
use better_telegram_mcp.Base.{
  ℕ, ◌≡◌, refl, Bool, none, some, List, [], ◌∷◌, String, ◌==◌, if◌then◌else◌,
}
use better_telegram_mcp.Base.Int.{ℤ, pos, negsuc}
use better_telegram_mcp.Base.Text.{str_eq, trim_space}
use better_telegram_mcp.Base.Result.{Result, ok, err, ◌>>=◌}
use better_telegram_mcp.Results.{GoError, errorf}
use better_telegram_mcp.Value.{parse_int}

-- strings.Split at a separator of one character: the text before the first one, and the rest.
unfoldable pub split : ℕ → String → List String
split k empty = empty ∷ []
split k (char c s) =
    let rest = split k s in
    if code c == k
    then empty ∷ rest
    else elim rest [ [] ↦ char c empty ∷ [] | t ∷ ts ↦ char c t ∷ ts ]

abbrev is_blank : String → Bool
is_blank s = str_eq s ""

-- fmt's %q
module _ (quote : String → String) where
  bad_sender : String → String
  bad_sender part =
      Prim.Native.String.◌++◌
        "TELEGRAM_ALLOWED_CALLBACK_SENDERS must be a comma-separated list of numeric Telegram user IDs, got "
        (quote part)

  -- The loop of parseSenders.
  unfoldable pub parse_parts : List String → Result GoError (List ℤ)
  unfolding bad_sender
  parse_parts [] = ok []
  parse_parts (raw ∷ parts) =
      let part = trim_space raw in
      let rest = parse_parts parts in
      if is_blank part then rest else elim (parse_int part) [
        | none ↦ err (errorf (bad_sender part))
        | some id ↦ rest >>= (λ ids. ok (id ∷ ids))
      ]

  -- parseSenders; a nil slice is the empty list.
  unfoldable pub parse_senders : String → Result GoError (List ℤ)
  unfolding parse_parts
  parse_senders raw = if is_blank (trim_space raw) then ok [] else parse_parts (split b',' raw)

parse_senders_example :
    (parse_senders (λ s. s) " 7, -3 ,," ≡ ok (pos 7 ∷ negsuc 2 ∷ []))
    × (parse_senders (λ s. s) " " ≡ ok [])
unfolding parse_senders split trim_space parse_int
parse_senders_example = (refl, refl)
