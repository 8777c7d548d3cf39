-- ===== src/Bot/Resume/Lines.antt =====
-- Texts as lines: strings.Split, strings.Join and strings.TrimRight at a character, for the resume
-- map of internal/telegram/bot.go.
use Prim.Native.Char.{Char, code}
use Prim.Native.String.{[] as empty, ◌∷◌ as char, ◌++◌ as join_texts}
use better_telegram_mcp.Base.{
  ℕ, ◌≡◌, refl, Bool, true, false, not, ◌&&◌, List, [], ◌∷◌, ◌++◌, String, ◌==◌, eq_iff,
  if◌then◌else◌, zero, suc, ◌≤◌, length, drop, All, Bool-cases, inl, inr, arith,
}
use better_telegram_mcp.Base.Text.{str_eq}
use better_telegram_mcp.Config.{trim_right_char}
use better_telegram_mcp.Config.Senders.{split}
use text.Mathlib.TextLemmas.{nil-append, cons-append, cons≢nil}
pub use text.Mathlib.TextLemmas.{nil-append, cons-append, append_assoc as text_assoc}

-- strings.Join with a separator of one character, given as a text
unfoldable pub join : String → List String → String
join sep [] = ""
join sep (s ∷ []) = s
join sep (s ∷ t ∷ ts) = join_texts s (join_texts sep (join sep (t ∷ ts)))

-- The separator does not occur.
unfoldable pub lacks : ℕ → String → Bool
lacks k empty = true
lacks k (char c s) = not (code c == k) && lacks k s

-- A character put before the first line.
abbrev glue : Char → List String → List String
glue c [] = char c empty ∷ []
glue c (t ∷ ts) = char c t ∷ ts

split-char :
    (k : ℕ) (c : Char) (s : String)
    → split k (char c s) ≡ (if code c == k then empty ∷ split k s else glue c (split k s))
unfolding split
split-char k c s = refl

glue-lacks :
    (k : ℕ) (c : Char) (ls : List String)
    → (code c == k) ≡ false
    → All (λ t. lacks k t ≡ true) ls
    → All (λ t. lacks k t ≡ true) (glue c ls)
unfolding lacks
glue-lacks k c [] b h = (rw b refl, tt)
glue-lacks k c (t ∷ ts) b (h, hs) = (rw (b, h) refl, hs)

pub split-lacks : (k : ℕ) (s : String) → All (λ t. lacks k t ≡ true) (split k s)
unfolding split lacks
split-lacks k empty = (refl, tt)
split-lacks k (char c s) = elim (Bool-cases (code c == k)) [
  | inl b ↦ rw b (refl, split-lacks k s)
  | inr b ↦ rw (split-char k c s, b) (glue-lacks k c (split k s) b (split-lacks k s))
]

lacks-char :
    (k : ℕ) (c : Char) (s : String)
    → lacks k (char c s) ≡ true
    → ((code c == k) ≡ false) × (lacks k s ≡ true)
unfolding lacks
lacks-char k c s h = (ground (arith, h), ground (arith, h))

pub split-of_lacks : (k : ℕ) (s : String) → lacks k s ≡ true → split k s ≡ s ∷ []
unfolding split
split-of_lacks k empty h = refl
split-of_lacks k (char c s) h =
    let (b, rest) = lacks-char k c s h in rw (split-char k c s, b, split-of_lacks k s rest) refl

split-cons : (k : ℕ) (s : String) → (t : String) × (ts : List String) × (split k s ≡ t ∷ ts)
unfolding split
split-cons k empty = (empty, [], refl)
split-cons k (char c s) = elim (Bool-cases (code c == k)) [
  | inl b ↦ (empty, split k s, rw (split-char k c s, b) refl)
  | inr b ↦ let (t, ts, e) = split-cons k s in (char c t, ts, rw (split-char k c s, b, e) refl)
]

==-refl : (k : ℕ) → (k == k) ≡ true
==-refl k = ground arith

trim_right_char-char :
    (k : ℕ) (c : Char) (s : String)
    → trim_right_char k (char c s) ≡ (
        if code c == k && str_eq (trim_right_char k s) ""
        then empty
        else char c (trim_right_char k s))
unfolding trim_right_char
trim_right_char-char k c s = refl

pub char-nonempty : (c : Char) (s : String) → str_eq (char c s) "" ≡ false
char-nonempty c s = elim (Bool-cases (str_eq (char c s) "")) [
  | inl b ↦ absurd (cons≢nil ((eq_iff (char c s) "").0 b))
  | inr b ↦ b
]

if-and-false : (b : Bool) (s t : String) → (if b && false then s else t) ≡ t
if-and-false true s t = refl
if-and-false false s t = refl

join_texts-nonempty : (s t : String) → str_eq t "" ≡ false → str_eq (join_texts s t) "" ≡ false
join_texts-nonempty empty t k = rw (nil-append t) k
join_texts-nonempty (char c s) t k = rw (cons-append c s t) (char-nonempty c (join_texts s t))

module _ (n : Char) where
  pub split-append :
      (s t : String)
      → split (code n) (join_texts s (char n t)) ≡ split (code n) s ++ split (code n) t
  unfolding split
  split-append empty t = rw (nil-append (char n t), split-char (code n) n t, ==-refl (code n)) refl
  split-append (char c s) t =
      let rest = split-append s t in
      let (u, us, e) = split-cons (code n) s in
      rw
        (
          cons-append c s (char n t),
          split-char (code n) c (join_texts s (char n t)),
          split-char (code n) c s,
          rest,
        )
        (elim (Bool-cases (code c == code n)) [ inl b ↦ rw b refl | inr b ↦ rw (b, e) refl ])

  -- The lines of texts without the separator, joined by it, are these texts.
  pub split-join :
      (t : String) (ts : List String)
      → All (λ u. lacks (code n) u ≡ true) (t ∷ ts)
      → split (code n) (join (char n empty) (t ∷ ts)) ≡ t ∷ ts
  unfolding join
  split-join t [] (h, hs) = split-of_lacks (code n) t h
  split-join t (u ∷ us) (h, hs) =
      let rest = join (char n empty) (u ∷ us) in
      rw
        (
          cons-append n empty rest,
          nil-append rest,
          split-append t rest,
          split-of_lacks (code n) t h,
          split-join u us hs,
        )
        refl

  trim_right_char-last :
      (t : String)
      → lacks (code n) t ≡ true
      → trim_right_char (code n) (join_texts t (char n empty)) ≡ t
  unfolding trim_right_char
  trim_right_char-last empty h =
      rw (nil-append (char n empty), trim_right_char-char (code n) n empty, ==-refl (code n)) refl
  trim_right_char-last (char c t) h =
      let (b, rest) = lacks-char (code n) c t h in
      rw
        (
          cons-append c t (char n empty),
          trim_right_char-char (code n) c (join_texts t (char n empty)),
          trim_right_char-last t rest,
          b,
        )
        refl

  -- strings.TrimRight takes off the separator that follows a text without it.
  pub trim_right_char-ended :
      (s t : String)
      → lacks (code n) t ≡ true
      → str_eq t "" ≡ false
      → trim_right_char (code n) (join_texts s (join_texts t (char n empty))) ≡ join_texts s t
  trim_right_char-ended empty t h k =
      rw (nil-append (join_texts t (char n empty)), nil-append t) (trim_right_char-last t h)
  trim_right_char-ended (char c s) t h k =
      rw
        (
          cons-append c s (join_texts t (char n empty)),
          cons-append c s t,
          trim_right_char-char (code n) c (join_texts s (join_texts t (char n empty))),
          trim_right_char-ended s t h k,
          join_texts-nonempty s t k,
        )
        (if-and-false (code c == code n) empty (char c (join_texts s t)))

pub drop-snoc :
    {A : Type 0} (k : ℕ) (xs : List A) (x : A)
    → k ≤ length xs
    → drop k (xs ++ x ∷ []) ≡ drop k xs ++ x ∷ []
drop-snoc zero xs x h = refl
drop-snoc (suc k) [] x h = absurd (omega (arith, h))
drop-snoc (suc k) (y ∷ xs) x h = drop-snoc k xs x (omega (arith, h))
