-- ===== src/Programs/Calls.antt =====
-- The calls that a program makes and the results that it can end with.
use better_telegram_mcp.Base.{◌≡◌, refl, Bool, true, false, List, String, if◌then◌else◌}
use better_telegram_mcp.Base.Result.{Result, ok, err}
use better_telegram_mcp.Value.{Map}
use better_telegram_mcp.Results.{GoError}
use better_telegram_mcp.Programs.{Program, done, call, answered, ask, capable, run}

module _ {C : Type 0} {A : C → Type 0} where
  -- Every call that the program makes, whatever the backend answers, satisfies P.
  unfoldable pub Calls : (C → Type 0) → Program C A → Type 0
  Calls P (done result) = Unit
  Calls P (call c next) = P c × ((a : Result GoError (A c)) → Calls P (next a))

  -- Every result that the program ends with, whatever the backend answers, satisfies Q.
  unfoldable pub Ends : (Map → Type 0) → Program C A → Type 0
  Ends Q (done result) = Q result
  Ends Q (call c next) = (a : Result GoError (A c)) → Ends Q (next a)

  pub Calls-mono :
      (P Q : C → Type 0) (p : Program C A) → ((c : C) → P c → Q c) → Calls P p → Calls Q p
  unfolding Calls
  Calls-mono P Q (done r) h k = tt
  Calls-mono P Q (call c next) h (x, k) = (h c x, λ a. Calls-mono P Q (next a) h (k a))

  pub Ends-mono :
      (P Q : Map → Type 0) (p : Program C A) → ((r : Map) → P r → Q r) → Ends P p → Ends Q p
  unfolding Ends
  Ends-mono P Q (done r) h e = h r e
  Ends-mono P Q (call c next) h e = λ a. Ends-mono P Q (next a) h (e a)

module _ {C : Type 0} (A : C → Type 0) (P : C → Type 0) where
  pub done-Calls : (m : Map) → Calls {C = C} {A = A} P (done m)
  unfolding Calls
  done-Calls m = tt

  pub answered-Calls :
      {X : Type 0} (next : X → Program C A) (a : Result GoError X)
      → ((x : X) → Calls P (next x))
      → Calls P (answered next a)
  unfolding Calls
  answered-Calls next (ok x) h = h x
  answered-Calls next (err e) h = tt

  pub ask-Calls : (c : C) (result : A c → Map) → P c → Calls {C = C} {A = A} P (ask c result)
  unfolding Calls
  ask-Calls c result p = (p, λ a. answered-Calls (λ x. done (result x)) a (λ x. tt))

  pub if-Calls :
      (b : Bool) (p q : Program C A)
      → (b ≡ true → Calls P p)
      → (b ≡ false → Calls P q)
      → Calls P (if b then p else q)
  unfolding Calls
  if-Calls true p q h k = h refl
  if-Calls false p q h k = k refl

  -- A switch that takes one case, or goes on with the rest.
  pub case-Calls :
      (b : Bool) (p q : Program C A) → Calls P p → Calls P q → Calls P (if b then p else q)
  case-Calls true p q h k = h
  case-Calls false p q h k = k

  -- A refusal, or one call.
  pub refuse-Calls :
      (b : Bool) (m : Map) (c : C) (result : A c → Map)
      → (b ≡ false → P c)
      → Calls {C = C} {A = A} P (if b then done m else ask c result)
  refuse-Calls b m c result h = if-Calls b _ _ (λ e. done-Calls m) (λ e. ask-Calls c result (h e))

  pub capable-Calls :
      (lower : String → String) (actions : List String) (action : String) (has : Bool)
      (rest : Program C A)
      → Calls P rest
      → Calls P (capable lower actions action has rest)
  unfolding capable
  capable-Calls lower actions action has rest h =
      case-Calls _ _ _ (case-Calls _ _ _ h (done-Calls _)) (done-Calls _)

-- What a program ends with, whatever it is run on, is one of the results it can end with.
pub Ends-run :
    {C X : Type 0} {A : C → Type 0} (perform : (c : C) → X → Result GoError (A c) × X)
    (Q : Map → Type 0) (p : Program C A) (x : X)
    → Ends Q p
    → Q (run perform p x).0
unfolding Ends run
Ends-run perform Q (done r) x h = h
Ends-run perform Q (call c next) x h =
    let (a, y) = perform c x in Ends-run perform Q (next a) y (h a)
