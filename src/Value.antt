-- ===== src/Value.antt =====
-- Go's `any` as the program meets it: what encoding/json decodes, and the argument types that the
-- tools pass. internal/telegram/bot.go (asInt), internal/tools/helpers.go (isEmpty, asInt64).
use Prim.Native.Char.{code}
use Prim.Native.String.{[] as empty, ◌∷◌ as char}
use better_telegram_mcp.Base.{
  ℕ, ◌+◌, ◌-◌, ◌*◌, ◌/◌, ◌^◌, ◌≡◌, refl, Bool, true, false, ◌&&◌, Option, none, some, List, [], ◌∷◌,
  String, leb, ◌==◌, if◌then◌else◌, eq_iff, eq_refl,
}
use better_telegram_mcp.Base.Int.{ℤ, pos, negsuc, sub_ℕ, neg}
use better_telegram_mcp.Base.Text.{str_eq, trim_space}
use better_telegram_mcp.Base.Dict
use better_telegram_mcp.Base.Dict.{Key}

-- `float m k` is the float64 m / 2 ^ k; every finite one is of this form. `strings` is a
-- map[string]string and `rows` a [][]map[string]string.
mutual
  pub data Value : Type 0 where
    nil : Value
    bool : Bool → Value
    int : ℤ → Value
    int64 : ℤ → Value
    float : ℤ → ℕ → Value
    number : String → Value
    text : String → Value
    list : Items → Value
    object : Fields → Value
    strings : List (String × String) → Value
    rows : List (List (List (String × String))) → Value

  pub data Items : Type 0 where
    stop : Items
    cons : Value → Items → Items

  pub data Fields : Type 0 where
    end : Fields
    field : String → Value → Fields → Fields

-- map[string]any
abbrev pub Map : Type 0
Map = List (String × Value)

abbrev pub items : Items → List Value
items stop = []
items (cons v vs) = v ∷ items vs

abbrev pub fields : Fields → Map
fields end = []
fields (field k v fs) = (k, v) ∷ fields fs

abbrev pub to_fields : Map → Fields
to_fields [] = end
to_fields ((k, v) ∷ m) = field k v (to_fields m)

instance abbrev pub string_key : Key String
string_key = record { eqb = str_eq; to_eq = λ a b. (eq_iff a b).0; of_eq = eq_refl }

-- m[key], `nil` where it is missing
unfoldable pub get : String → Map → Value
unfolding Dict.lookup
get key m = elim (Dict.lookup key m) [ none ↦ nil | some v ↦ v ]

-- the conversion of a float64 to an integer type, towards zero
unfoldable pub trunc : ℤ → ℕ → ℤ
unfolding neg
trunc (pos n) k = pos (n / 2 ^ k)
trunc (negsuc n) k = neg (pos ((n + 1) / 2 ^ k))

-- The digits of a decimal numeral, most significant first.
digits : ℕ → String → Option ℕ
digits acc empty = some acc
digits acc (char c s) =
    if leb b'0' (code c) && leb (code c) b'9' then digits (acc * 10 + (code c - b'0')) s else none

abbrev in_range : Bool → Option ℕ → Option ℤ
in_range negative none = none
in_range true (some n) = if leb n (2 ^ 63) then some (sub_ℕ 0 n) else none
in_range false (some n) = if leb n (2 ^ 63 - 1) then some (pos n) else none

numeral : String → Option ℕ
unfolding digits
numeral empty = none
numeral (char c s) = digits 0 (char c s)

-- strconv.ParseInt(s, 10, 64) and strconv.Atoi(s): a sign, digits, and the range of int64
unfoldable pub parse_int : String → Option ℤ
unfolding numeral
parse_int empty = none
parse_int (char c s) =
    if code c == b'-'
    then in_range true (numeral s)
    else if code c == b'+'
    then in_range false (numeral s)
    else in_range false (numeral (char c s))

-- asInt, asInt64
unfoldable pub as_int : Value → Option ℤ
unfolding parse_int trunc
as_int (int n) = some n
as_int (int64 n) = some n
as_int (float m k) = some (trunc m k)
as_int (number s) = parse_int s
as_int (text s) = parse_int s
as_int _ = none

is_zero : ℤ → Bool
is_zero (pos n) = n == 0
is_zero (negsuc n) = false

-- isEmpty
unfoldable pub is_empty : Value → Bool
unfolding is_zero trim_space
is_empty nil = true
is_empty (text s) = str_eq (trim_space s) ""
is_empty (int n) = is_zero n
is_empty (int64 n) = is_zero n
is_empty (float m k) = is_zero m
is_empty _ = false

decoded_numbers :
    (as_int (text "-1001234567890") ≡ some (neg (pos 1001234567890)))
    × (as_int (float (negsuc 4) 1) ≡ some (negsuc 1))
    × (as_int (text "9223372036854775808") ≡ none)
unfolding as_int neg
decoded_numbers = (refl, refl, refl)
