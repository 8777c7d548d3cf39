-- ===== src/Base/Text.antt =====
-- The operations of Go's package strings that the program uses, over the native texts.
use Prim.Native.Nat.{ℕ, suc}
use Prim.Native.Char.{code}
use Prim.Native.String.{String, [], ◌∷◌, compare}
use Prim.Native.Nat.{Ordering}
use mathlib.Core.Bool.{Bool, true, false, ◌&&◌, ◌||◌}
use mathlib.Core.List.{List}
use text.Mathlib.Text.{◌==◌ as str_eq, starts_with}
use better_telegram_mcp.Base.Tests.{leb, ◌==◌, if◌then◌else◌}
pub use text.Mathlib.Text.{◌==◌ as str_eq, starts_with}

-- unicode.IsSpace
unfoldable pub is_space : ℕ → Bool
is_space c =
    (leb 9 c && leb c 13)
    || c == 32
    || c == 133
    || c == 160
    || c == 5760
    || (leb 8192 c && leb c 8202)
    || c == 8232
    || c == 8233
    || c == 8239
    || c == 8287
    || c == 12288

abbrev is_nil : String → Bool
is_nil [] = true
is_nil (c ∷ s) = false

unfoldable pub trim_left : String → String
unfolding is_space
trim_left [] = []
trim_left (c ∷ s) = if is_space (code c) then trim_left s else c ∷ s

unfoldable pub trim_right : String → String
unfolding is_space
trim_right [] = []
trim_right (c ∷ s) =
    let rest = trim_right s in if is_space (code c) && is_nil rest then [] else c ∷ rest

-- strings.TrimSpace
unfoldable pub trim_space : String → String
unfolding trim_left trim_right
trim_space s = trim_left (trim_right s)

-- strings.TrimPrefix(s, c), for a prefix of one character
unfoldable pub trim_prefix_char : ℕ → String → String
trim_prefix_char k [] = []
trim_prefix_char k (c ∷ s) = if code c == k then s else c ∷ s

-- the characters of a text satisfy a test
unfoldable pub all_chars : (ℕ → Bool) → String → Bool
all_chars p [] = true
all_chars p (c ∷ s) = p (code c) && all_chars p s

-- utf8.RuneCountInString, len([]rune(s))
unfoldable pub rune_count : String → ℕ
rune_count [] = 0
rune_count (c ∷ s) = suc (rune_count s)

-- slices.Contains over texts
abbrev pub contains : List String → String → Bool
contains List.[] v = false
contains (List.◌∷◌ x xs) v = str_eq x v || contains xs v

-- strings.Contains
unfoldable pub contains_text : String → String → Bool
contains_text [] t = starts_with [] t
contains_text (c ∷ s) t = starts_with (c ∷ s) t || contains_text s t

abbrev leq : String → String → Bool
leq a b = elim (compare a b) [ Ordering.gt ↦ false | _ ↦ true ]

-- sort.Strings: by bytes, which for UTF-8 is by code points
unfoldable pub insert_text : String → List String → List String
insert_text s List.[] = List.◌∷◌ s List.[]
insert_text s (List.◌∷◌ t ts) =
    if leq s t then List.◌∷◌ s (List.◌∷◌ t ts) else List.◌∷◌ t (insert_text s ts)

unfoldable pub sort_texts : List String → List String
unfolding insert_text
sort_texts List.[] = List.[]
sort_texts (List.◌∷◌ s ts) = insert_text s (sort_texts ts)
