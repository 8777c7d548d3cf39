-- ===== src/Results.antt =====
-- internal/tools/result.go: the payloads of the tools, and the correction that a mistyped action gets.
mod Tests
use Prim.Native.Char.{code}
use Prim.Native.String.{[] as empty, ◌∷◌ as char}
use better_telegram_mcp.Base.{
  ℕ, zero, suc, ◌+◌, ◌-◌, ◌*◌, ◌≡◌, Bool, true, false, not, ◌&&◌, ◌||◌, Option, none, some, List,
  [], ◌∷◌, String, ltb, leb, ◌==◌, if◌then◌else◌, length, take, drop,
}
use better_telegram_mcp.Base.Text.{str_eq, contains, sort_texts}
use better_telegram_mcp.Value.{Value, nil, text, Map}

-- Err
unfoldable pub err_result : String → Map
err_result message = ("error", text message) ∷ []

-- What SafeError, aliasError and connectLoop tell errors apart by.
pub data ErrorKind : Type 0 where
  mode_error : ErrorKind
  keyboard_error : ErrorKind
  api_error : ErrorKind
  security_error : ErrorKind
  rpc_error : ErrorKind
  alias_error : ErrorKind
  busy_error : ErrorKind
  other_error : ErrorKind

-- Go's error, with its text and the name of its type
pub record GoError : Type 0 where
  pub kind : ErrorKind
  pub message : String
  pub type_name : String

-- fmt.Errorf, without an error to wrap and around one
abbrev pub errorf : String → GoError
errorf m = record { kind = other_error; message = m; type_name = "*errors.errorString" }

abbrev pub wrap_error : String → GoError
wrap_error m = record { kind = other_error; message = m; type_name = "*fmt.wrapError" }

unnamed : String → Map
unfolding err_result
unnamed type_name =
    err_result
      (Prim.Native.String.◌++◌ type_name ": Operation failed. Check server logs for details.")

-- SafeError
unfoldable pub safe_error : GoError → Map
unfolding err_result unnamed
safe_error e = elim e.kind [
  | alias_error ↦ unnamed e.type_name
  | busy_error ↦ unnamed e.type_name
  | other_error ↦ unnamed e.type_name
  | _ ↦ err_result e.message
]

-- []rune(s)
unfoldable pub runes : String → List ℕ
runes empty = []
runes (char c s) = code c ∷ runes s

-- bestA, bestB and bestLen
pub record Best : Type 0 where
  pub at_a : ℕ
  pub at_b : ℕ
  pub len : ℕ

-- The inner loop at a[i]: `lengths` from place j on, the places of b from j on; `none` where they
-- differ. The new row has the length at j + 1 and further.
unfoldable pub row : ℕ → ℕ → List ℕ → ℕ → List ℕ → Best → List ℕ × Best
row x i lengths j [] best = ([], best)
row x i [] j (y ∷ ys) best = ([], best)
row x i (l ∷ lengths) j (y ∷ ys) best =
    let longer : Best = record { at_a = i + 1 - (l + 1); at_b = j + 1 - (l + 1); len = l + 1 } in
    let best' : Best = if x == y then (if ltb best.len (l + 1) then longer else best) else best in
    let (next, found) = row x i lengths (j + 1) ys best' in
    ((if x == y then l + 1 else 0) ∷ next, found)

-- The outer loop, from place i of a on.
unfoldable pub longest : ℕ → List ℕ → List ℕ → List ℕ → Best → Best
unfolding row
longest i [] b lengths best = best
longest i (x ∷ xs) b lengths best =
    let (next, best') = row x i lengths 0 b best in longest (i + 1) xs b (0 ∷ next) best'

-- make([]int, n)
unfoldable pub zeros : ℕ → List ℕ
zeros zero = []
zeros (suc n) = 0 ∷ zeros n

-- matchingRunes, with fuel for its recursion
unfoldable pub matching_runes : ℕ → List ℕ → List ℕ → ℕ
unfolding longest zeros
matching_runes zero a b = 0
matching_runes (suc fuel) a b =
    let best : Best =
      longest 0 a b (zeros (length b + 1)) (record { at_a = 0; at_b = 0; len = 0 }) in
    let left = matching_runes fuel (take best.at_a a) (take best.at_b b) in
    let right =
      matching_runes fuel (drop (best.at_a + best.len) a) (drop (best.at_b + best.len) b) in
    if best.len == 0 then 0 else best.len + left + right

-- similarity, as a fraction: equal scores are equal float64s, and the order is theirs.
unfoldable pub similarity : List ℕ → List ℕ → ℕ × ℕ
unfolding matching_runes
similarity a b =
    let total = length a + length b in
    if total == 0 then (1, 1) else (2 * matching_runes (length a) a b, total)

-- `a > b` of two fractions
unfoldable pub above : ℕ × ℕ → ℕ × ℕ → Bool
above (n, d) (m, e) = ltb (m * d) (n * e)

module _ (lower : String → String) where
  -- the loop of closestMatch
  unfoldable pub closest_from : String → String → ℕ × ℕ → List String → String × (ℕ × ℕ)
  unfolding similarity above runes
  closest_from value best score [] = (best, score)
  closest_from value best score (candidate ∷ rest) =
      let s = similarity (runes (lower value)) (runes (lower candidate)) in
      let kept : String × (ℕ × ℕ) = if above s score then (candidate, s) else (best, score) in
      closest_from value kept.0 kept.1 rest

  -- closestMatch
  unfoldable pub closest_match : String → List String → String
  unfolding closest_from
  closest_match value candidates =
      let (best, score) = closest_from value "" (0, 1) candidates in
      if ltb (5 * score.0) (3 * score.1) then "" else best

  -- strings.Join(sorted, "|")
  unfoldable pub join_bars : List String → String
  join_bars [] = ""
  join_bars (s ∷ []) = s
  join_bars (s ∷ ss) = Prim.Native.String.◌++◌ s (char "|" (join_bars ss))

  unfoldable pub suggestion : String → String
  suggestion closest =
      if str_eq closest ""
      then ""
      else Prim.Native.String.◌++◌ " Did you mean '" (Prim.Native.String.◌++◌ closest "'?")

  -- unknownAction
  unfoldable pub unknown_action : String → List String → Map
  unfolding err_result closest_match join_bars suggestion sort_texts
  unknown_action action valid =
      let sorted = sort_texts valid in
      err_result (
        Prim.Native.String.◌++◌ "Unknown action '" (
          Prim.Native.String.◌++◌ action (
            Prim.Native.String.◌++◌ "'." (
              Prim.Native.String.◌++◌ (suggestion (closest_match action sorted))
                (Prim.Native.String.◌++◌ " Valid: " (join_bars sorted))))))
