-- ===== src/Folders/Order.antt =====
-- The order that ReorderFolders of internal/telegram/user_folders.go sends.
use better_telegram_mcp.Base.{
  ℕ, ◌+◌, ◌≤◌, ◌≡◌, refl, false, not, ◌&&◌, List, [], ◌∷◌, ◌++◌, arith, ltb, filter, Bool-cases,
  inl, inr, if◌then◌else◌,
}
use better_telegram_mcp.Base.Int.{ℤ, eqb_ℤ, eqb_ℤ_iff}
use better_telegram_mcp.Base.Result.{ok, >>=-eq-ok, guard-eq-ok}
use better_telegram_mcp.Folders.{has, named, final_order}

-- How often an id stands in a list.
unfoldable pub count : ℤ → List ℤ → ℕ
count x [] = 0
count x (y ∷ ys) = (if eqb_ℤ y x then 1 else 0) + count x ys

has-count : (xs : List ℤ) (x : ℤ) → has xs x ≡ ltb 0 (count x xs)
unfolding has count
has-count [] x = refl
has-count (y ∷ ys) x = ground (arith, has-count ys x)

count-append : (x : ℤ) (xs ys : List ℤ) → count x (xs ++ ys) ≡ count x xs + count x ys
unfolding count
count-append x [] ys = omega arith
count-append x (y ∷ xs) ys = omega (arith, count-append x xs ys)

count-filter :
    (x : ℤ) (first ks : List ℤ)
    → count x (filter (λ id. not (has first id)) ks) ≡ (if has first x then 0 else count x ks)
unfolding count
count-filter x first [] = ground arith
count-filter x first (k ∷ ks) = elim (Bool-cases (eqb_ℤ k x)) [
  | inl b ↦
      let same : k ≡ x = (eqb_ℤ_iff k x).0 b in ground (arith, same, b, count-filter x first ks)
  | inr b ↦ ground (arith, b, count-filter x first ks)
]

-- Each named id that was not seen before comes once, and each is a folder's.
named_lem :
    (known seen order first : List ℤ) (x : ℤ)
    → named known seen order ≡ ok first
    → (count x first ≡ (if has seen x then 0 else if has order x then 1 else 0))
      × (has order x && not (has known x) ≡ false)
unfolding named has count
named_lem known seen [] first x h =
    let e : first ≡ [] = ground (arith, h) in rw e (ground arith, refl)
named_lem known seen (id ∷ order) first x h =
    let (k, g) = guard-eq-ok (not (has known id)) _ _ h in
    elim (Bool-cases (has seen id)) [
      | inl b ↦
          let ih = named_lem known seen order first x (rw b at g) in
          elim (Bool-cases (eqb_ℤ id x)) [
            | inl s ↦
                let same : id ≡ x = (eqb_ℤ_iff id x).0 s in
                ground (arith, same, s, k, b, ih.0, ih.1)
            | inr s ↦ ground (arith, s, ih.0, ih.1)
          ]
      | inr b ↦
          let (rest, m, e) = >>=-eq-ok _ _ (rw b at g) in
          let ih = named_lem known (id ∷ seen) order rest x m in
          let split : first ≡ id ∷ rest = ground (arith, e) in
          rw split (elim (Bool-cases (eqb_ℤ id x)) [
            | inl s ↦
                let same : id ≡ x = (eqb_ℤ_iff id x).0 s in
                ground (arith, same, s, k, b, ih.0, ih.1)
            | inr s ↦ ground (arith, s, ih.0, ih.1)
          ])
    ]

-- When no two folders have one id, the order that ReorderFolders sends holds each id exactly as often
-- as the account's list does: it loses no folder, names none twice, and invents none.
pub final_order-count :
    (known order final : List ℤ) (x : ℤ)
    → count x known ≤ 1
    → final_order known order ≡ ok final
    → count x final ≡ count x known
unfolding final_order
final_order-count known order final x once h =
    let (first, n, e) = >>=-eq-ok _ _ h in
    let split : final ≡ first ++ filter (λ id. not (has first id)) known = ground (arith, e) in
    let (times, known_all) = named_lem known [] order first x n in
    rw split (
      ground (
        arith,
        once,
        times,
        known_all,
        has-count first x,
        has-count known x,
        count-append x first (filter (λ id. not (has first id)) known),
        count-filter x first known,
      ))
