-- ===== src/Keyboard/Duplicates.antt =====
-- duplicateData finds nothing exactly when the callback data of all buttons are distinct.
use better_telegram_mcp.Base.{
  ◌≡◌, ◌≢◌, refl, false, List, [], ◌∷◌, String, arith, All, Bool-cases, inl, inr,
}
use better_telegram_mcp.Base.Text.{str_eq, contains, sort_texts, insert_text}
use better_telegram_mcp.Keyboard.{InlineKeyboard, all_data, duplicates, duplicate_data}

abbrev pub Distinct : List String → Type 0
Distinct [] = Unit
Distinct (d ∷ ds) = All (λ x. str_eq d x ≡ false) ds × Distinct ds

abbrev Unseen : List String → List String → Type 0
Unseen seen ds = All (λ x. contains seen x ≡ false) ds

insert_text-ne-nil : (s : String) (ts : List String) → insert_text s ts ≢ []
unfolding insert_text
insert_text-ne-nil s [] h = cc
insert_text-ne-nil s (t ∷ ts) h = ground arith

sort_texts-eq-nil : (ts : List String) → sort_texts ts ≡ [] → ts ≡ []
unfolding sort_texts
sort_texts-eq-nil [] h = refl
sort_texts-eq-nil (t ∷ ts) h = absurd (insert_text-ne-nil t (sort_texts ts) h)

-- What was found twice stays found.
duplicates-ne-nil :
    (seen : List String) (d : String) (dupes ds : List String) → duplicates seen (d ∷ dupes) ds ≢ []
unfolding duplicates
duplicates-ne-nil seen d dupes [] h = cc
duplicates-ne-nil seen d dupes (x ∷ ds) h = elim (Bool-cases (contains seen x)) [
  | inl b ↦ elim (Bool-cases (contains (d ∷ dupes) x)) [
    | inl b' ↦ duplicates-ne-nil (x ∷ seen) d dupes ds (rw (b, b') at h)
    | inr b' ↦ duplicates-ne-nil (x ∷ seen) x (d ∷ dupes) ds (rw (b, b') at h)
  ]
  | inr b ↦ duplicates-ne-nil (x ∷ seen) d dupes ds (rw b at h)
]

Unseen-step :
    (seen : List String) (d : String) (ds : List String)
    → Unseen (d ∷ seen) ds
    → Unseen seen ds × All (λ x. str_eq d x ≡ false) ds
Unseen-step seen d [] h = (tt, tt)
Unseen-step seen d (x ∷ ds) (h, hs) =
    let (u, a) = Unseen-step seen d ds hs in ((ground arith, u), (ground arith, a))

Unseen-join :
    (seen : List String) (d : String) (ds : List String)
    → Unseen seen ds
    → All (λ x. str_eq d x ≡ false) ds
    → Unseen (d ∷ seen) ds
Unseen-join seen d [] h k = tt
Unseen-join seen d (x ∷ ds) (h, hs) (k, ks) = (ground arith, Unseen-join seen d ds hs ks)

duplicates-Distinct :
    (seen ds : List String) → duplicates seen [] ds ≡ [] → Unseen seen ds × Distinct ds
unfolding duplicates
duplicates-Distinct seen [] h = (tt, tt)
duplicates-Distinct seen (d ∷ ds) h = elim (Bool-cases (contains seen d)) [
  | inl b ↦ absurd (duplicates-ne-nil (d ∷ seen) d [] ds (rw b at h))
  | inr b ↦
      let (u, s) = duplicates-Distinct (d ∷ seen) ds (rw b at h) in
      let (u', a) = Unseen-step seen d ds u in ((b, u'), (a, s))
]

duplicates-eq-nil :
    (seen ds : List String) → Unseen seen ds → Distinct ds → duplicates seen [] ds ≡ []
unfolding duplicates
duplicates-eq-nil seen [] u s = refl
duplicates-eq-nil seen (d ∷ ds) (b, u) (a, s) =
    rw b (duplicates-eq-nil (d ∷ seen) ds (Unseen-join seen d ds u a) s)

Unseen-nil : (ds : List String) → Unseen [] ds
Unseen-nil [] = tt
Unseen-nil (d ∷ ds) = (refl, Unseen-nil ds)

pub duplicate_data-Distinct :
    (keyboard : InlineKeyboard) → duplicate_data keyboard ≡ [] → Distinct (all_data keyboard)
unfolding duplicate_data
duplicate_data-Distinct keyboard h =
    (duplicates-Distinct [] (all_data keyboard) (sort_texts-eq-nil _ h)).1

pub duplicate_data-eq-nil :
    (keyboard : InlineKeyboard) → Distinct (all_data keyboard) → duplicate_data keyboard ≡ []
unfolding duplicate_data sort_texts
duplicate_data-eq-nil keyboard s = rw (duplicates-eq-nil [] (all_data keyboard) (Unseen-nil _) s)
