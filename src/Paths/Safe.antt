-- ===== src/Paths/Safe.antt =====
-- What a path that internal/security/security.go lets through is known to be.
use better_telegram_mcp.Base.{
  ◌≡◌, false, Option, none, some, List, [], ◌∷◌, String, arith, All, Bool-cases, inl, inr,
}
use better_telegram_mcp.Base.Result.{Result, ok, err}
use better_telegram_mcp.Paths.{
  FileSystem, PathError, invalid_path, is_within, spellings, within_any, under_blocked_prefix,
  split_path, is_hidden, first_hidden, hidden_component, expand_user, first_blocked, resolve,
  check_path, validate_path,
}

-- The path is none of the directories, and lies in none of them.
abbrev pub Outside : String → List String → Type 0
Outside path = All (λ dir. is_within path dir ≡ false)

-- No part of the path is hidden.
abbrev pub Visible : String → Type 0
Visible path = All (λ part. is_hidden part ≡ false) (split_path "" path)

under_blocked_prefix-Outside :
    (fs : FileSystem) (path : String) (prefixes : List String)
    → under_blocked_prefix fs path prefixes ≡ none
    → Outside path prefixes
unfolding under_blocked_prefix within_any spellings
under_blocked_prefix-Outside fs path [] h = tt
under_blocked_prefix-Outside fs path (prefix ∷ prefixes) h =
    elim (Bool-cases (within_any path (spellings prefix (fs.eval_symlinks prefix)))) [
      | inl b ↦ absurd (ground (arith, b, h))
      | inr b ↦ (
        literal (fs.eval_symlinks prefix) b,
        under_blocked_prefix-Outside fs path prefixes (ground (arith, b, h)),
      )
    ]
  where
    literal :
        (o : Option String)
        → within_any path (spellings prefix o) ≡ false
        → is_within path prefix ≡ false
    literal none b = ground (arith, b)
    literal (some real) b = ground (arith, b)

first_hidden-All :
    (parts : List String) → first_hidden parts ≡ none → All (λ part. is_hidden part ≡ false) parts
unfolding first_hidden
first_hidden-All [] h = tt
first_hidden-All (part ∷ parts) h = elim (Bool-cases (is_hidden part)) [
  | inl b ↦ absurd (ground (arith, b, h))
  | inr b ↦ (b, first_hidden-All parts (ground (arith, b, h)))
]

-- A path that check_path lets through.
abbrev pub IsSafe : List String → String → Type 0
IsSafe prefixes path = Outside path prefixes × Visible path

-- What check_path has found out when it lets a path through.
check_path-found :
    (fs : FileSystem) (abs expanded : String) (prefixes : List String) (p : String)
    → check_path fs abs expanded prefixes ≡ ok p
    → (resolve fs abs ≡ p)
      × (under_blocked_prefix fs (resolve fs abs) prefixes ≡ none)
      × (under_blocked_prefix fs abs prefixes ≡ none)
      × (hidden_component (resolve fs abs) ≡ none)
unfolding check_path first_blocked
check_path-found fs abs expanded prefixes p h =
    (ground (arith, h), ground (arith, h), ground (arith, h), ground (arith, h))

check_path-IsSafe :
    (fs : FileSystem) (abs expanded : String) (prefixes : List String) (p : String)
    → check_path fs abs expanded prefixes ≡ ok p
    → IsSafe prefixes p × Outside abs prefixes
unfolding hidden_component
check_path-IsSafe fs abs expanded prefixes p h =
    let (e, resolved, absolute, plain) = check_path-found fs abs expanded prefixes p h in
    rw⁻¹ e (
      (
        under_blocked_prefix-Outside fs (resolve fs abs) prefixes resolved,
        first_hidden-All (split_path "" (resolve fs abs)) plain,
      ),
      under_blocked_prefix-Outside fs abs prefixes absolute,
    )

-- A path that validatePath returns is none of the blocked directories, lies in none of them, and
-- has no hidden part.
pub validate_path-IsSafe :
    (fs : FileSystem) (path : String) (prefixes : List String) (p : String)
    → validate_path fs path prefixes ≡ ok p
    → IsSafe prefixes p
unfolding validate_path
validate_path-IsSafe fs path prefixes p h = expanded (expand_user fs path) h
  where
    resolved :
        (ex : String) (o : Option String)
        → (elim o as (λ x. Result PathError String) [
          | none ↦ err invalid_path
          | some abs ↦ check_path fs abs ex prefixes
        ])
          ≡ ok p
        → IsSafe prefixes p
    resolved ex none h = absurd (ground (arith, h))
    resolved ex (some abs) h = (check_path-IsSafe fs abs ex prefixes p h).0

    expanded :
        (r : Result PathError String)
        → (elim r as (λ x. Result PathError String) [
          | err e ↦ err e
          | ok ex ↦ elim (fs.abs ex) [
            | none ↦ err invalid_path
            | some abs ↦ check_path fs abs ex prefixes
          ]
        ])
          ≡ ok p
        → IsSafe prefixes p
    expanded (err e) h = absurd (ground (arith, h))
    expanded (ok ex) h = resolved ex (fs.abs ex) h
