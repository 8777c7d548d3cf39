-- ===== src/Base/Result.antt =====
-- A value or an error, as Go's pairs (value, error) are used.
use mathlib.Core.Path.{◌≡◌, refl, sym}
use mathlib.Core.Bool.{Bool, true, false}

pub data Result {ℓ} (E : Type 0) (A : Type ℓ) : Type ℓ where
  err : E → Result E A
  ok : A → Result E A

-- `if bad { return reason }`, and what comes after it
abbrev pub guard {ℓ} : {E : Type 0} {A : Type ℓ} → Bool → E → Result E A → Result E A
guard false reason rest = rest
guard true reason rest = err reason

infixl 5 ◌>>=◌
abbrev pub ◌>>=◌ {ℓ κ} :
    {E : Type 0} {A : Type ℓ} {B : Type κ} → Result E A → (A → Result E B) → Result E B
err reason >>= next = err reason
ok value >>= next = next value

module _ {ℓ κ} {E : Type 0} {A : Type ℓ} {B : Type κ} where
  -- What a chain that succeeded went through.
  pub >>=-eq-ok :
      (first : Result E A) (next : A → Result E B) {y : B}
      → (first >>= next) ≡ ok y
      → (x : A) × (first ≡ ok x) × (next x ≡ ok y)
  >>=-eq-ok (err reason) next h = absurd (cc)
  >>=-eq-ok (ok value) next h = (value, refl, h)

-- A guard that let the code go on.
pub guard-eq-ok {ℓ} :
    {E : Type 0} {A : Type ℓ} (bad : Bool) (reason : E) (rest : Result E A) {x : A}
    → guard bad reason rest ≡ ok x
    → (bad ≡ false) × (rest ≡ ok x)
guard-eq-ok false reason rest h = (refl, h)
guard-eq-ok true reason rest h = absurd (cc)

module _ {ℓ κ} {E : Type 0} {A : Type ℓ} (P : A → Type κ) where
  -- The value, if there is one, satisfies P.
  unfoldable pub Oks : Result E A → Type κ
  Oks (err reason) = Unit
  Oks (ok value) = P value

  pub bind-Oks {μ} :
      {B : Type μ} (first : Result E B) (next : B → Result E A)
      → ((x : B) → Oks (next x))
      → Oks (first >>= next)
  unfolding Oks
  bind-Oks (err reason) next h = tt
  bind-Oks (ok value) next h = h value

  pub Oks-ok : (r : Result E A) (x : A) → Oks r → r ≡ ok x → P x
  unfolding Oks
  Oks-ok (err reason) x h e = absurd (cc)
  Oks-ok (ok value) x h e = let q : value ≡ x = cc in rw (sym q) h

module _ {ℓ κ μ ν} {E : Type 0} {A : Type ℓ} {B : Type μ} (P : A → Type κ) (Q : B → Type ν) where
  pub chain-Oks :
      (first : Result E B) (next : B → Result E A)
      → Oks Q first
      → ((x : B) → Q x → Oks P (next x))
      → Oks P (first >>= next)
  unfolding Oks
  chain-Oks (err reason) next h k = tt
  chain-Oks (ok value) next h k = k value h

pub ok-Oks {ℓ κ} : (E : Type 0) {A : Type ℓ} (P : A → Type κ) (a : A) → P a → Oks {E = E} P (ok a)
unfolding Oks
ok-Oks E P a h = h
