-- ===== src/Programs.antt =====
-- The shape that the handlers of internal/tools share: a program that ends with a result, or calls
-- the backend and goes on with what it answers. C is a tool's calls of the backend, and A what each
-- of them answers when it does not fail.
pub mod Calls
use better_telegram_mcp.Base.{
  ℕ, ◌≡◌, Bool, true, false, Option, none, some, List, [], ◌∷◌, String, length, if◌then◌else◌,
}
use better_telegram_mcp.Base.Int.{ℤ, pos, eqb_ℤ}
use better_telegram_mcp.Base.Text.{contains}
use better_telegram_mcp.Base.Result.{Result, ok, err}
use better_telegram_mcp.Value.{
  Value, nil, bool, int, text, list, object, Items, stop, cons, Map, to_fields, strings,
}
use better_telegram_mcp.Results.{GoError, mode_error, safe_error, unknown_action}

pub data Program (C : Type 0) (A : C → Type 0) : Type 0 where
  done : Map → Program C A
  call : (c : C) → (Result GoError (A c) → Program C A) → Program C A

-- NeedsUser
abbrev pub needs_user : GoError
needs_user = record {
  kind = mode_error;
  message =
      "This action requires user mode. Set TELEGRAM_API_ID + TELEGRAM_API_HASH + TELEGRAM_PHONE.";
  type_name = "*telegram.ModeError";
}

module _ {C : Type 0} {A : C → Type 0} where
  -- `if err != nil { return SafeError(err) }` and the rest
  abbrev pub answered : {X : Type 0} → (X → Program C A) → Result GoError X → Program C A
  answered next (ok a) = next a
  answered next (err e) = done (safe_error e)

  -- One call whose answer makes the result.
  abbrev pub ask : (c : C) → (A c → Map) → Program C A
  ask c result = call c (answered (λ a. done (result a)))

  -- What a tool does with an action that needs a capability of the backend: a mistyped action is
  -- reported first, then a backend without the capability.
  unfoldable pub capable :
      (String → String) → List String → String → Bool → Program C A → Program C A
  capable lower actions action has rest =
      if contains actions action
      then if has then rest else done (safe_error needs_user)
      else done (unknown_action lower action actions)

module _ {C : Type 0} {A : C → Type 0} {X : Type 0}
    (perform : (c : C) → X → Result GoError (A c) × X) where
  -- A program run on a backend with state X.
  unfoldable pub run : Program C A → X → Map × X
  run (done result) x = (result, x)
  run (call c next) x = let (a, y) = perform c x in run (next a) y

abbrev pub to_items : List Map → Items
to_items [] = stop
to_items (m ∷ ms) = cons (object (to_fields m)) (to_items ms)

-- Result{name: messages, "count": len(messages)}
unfoldable pub counted : String → List Map → Map
counted name ms = (name, list (to_items ms)) ∷ ("count", int (pos (length ms))) ∷ []

abbrev pub flag : String → Bool → Map
flag name b = (name, bool b) ∷ []

-- `id == 0`
abbrev pub is_unset : ℤ → Bool
is_unset n = eqb_ℤ n (pos 0)

-- `len(xs) == 0`
abbrev pub none_of : {X : Type 0} → List X → Bool
none_of [] = true
none_of (x ∷ xs) = false

-- An optional flag that is true when it is left out.
abbrev pub or_true : Option Bool → Bool
or_true none = true
or_true (some b) = b
