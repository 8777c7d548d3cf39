-- ===== src/Aliases/Store.antt =====
-- What Save, Delete and Lookup promise to one another.
use better_telegram_mcp.Base.{
  ◌≡◌, ◌∙◌, sym, refl, true, false, List, [], ◌∷◌, ◌++◌, String, arith, All, Bool-cases, inl, inr,
  eq_iff,
}
use mathlib.Core.List.{append-nil, append_assoc}
use better_telegram_mcp.Base.Text.{str_eq}
use better_telegram_mcp.Base.Dict
use better_telegram_mcp.Base.Dict.{lookup-insert, lookup-delete}
use better_telegram_mcp.Value.{string_key}
use better_telegram_mcp.Aliases.{
  Entry, AliasFile, absent, damaged, entries, flat, AliasStore, key, rekey, load_file, load, write,
}

-- No key of the list is k.
abbrev pub Fresh : String → List (String × Entry) → Type 0
Fresh k = All (λ e. str_eq e.0 k ≡ false)

abbrev pub DistinctKeys : List (String × Entry) → Type 0
DistinctKeys [] = Unit
DistinctKeys (e ∷ m) = Fresh e.0 m × DistinctKeys m

str_eq-sym : (a b : String) → str_eq a b ≡ false → str_eq b a ≡ false
str_eq-sym a b h = ground (arith, eq_iff a b, eq_iff b a)

Fresh-insert :
    (k j : String) (e : Entry) (m : List (String × Entry))
    → str_eq j k ≡ false
    → Fresh k m
    → Fresh k (Dict.insert j e m)
unfolding Dict.insert
Fresh-insert k j e [] h f = (h, tt)
Fresh-insert k j e ((i, v) ∷ m) h (f, fs) = elim (Bool-cases (str_eq i j)) [
  | inl b ↦ rw b (h, fs)
  | inr b ↦ rw b (f, Fresh-insert k j e m h fs)
]

Fresh-eq : (i k : String) (m : List (String × Entry)) → i ≡ k → Fresh i m → Fresh k m
Fresh-eq i k m h f = rw h at f

pub insert-DistinctKeys :
    (k : String) (e : Entry) (m : List (String × Entry))
    → DistinctKeys m
    → DistinctKeys (Dict.insert k e m)
unfolding Dict.insert
insert-DistinctKeys k e [] d = (tt, tt)
insert-DistinctKeys k e ((i, v) ∷ m) (f, d) = elim (Bool-cases (str_eq i k)) [
  | inl b ↦ let same : i ≡ k = (eq_iff i k).0 b in rw b (Fresh-eq i k m same f, d)
  | inr b ↦ rw b (Fresh-insert i k e m (str_eq-sym i k b) f, insert-DistinctKeys k e m d)
]

Fresh-delete : (k j : String) (m : List (String × Entry)) → Fresh k m → Fresh k (Dict.delete j m)
unfolding Dict.delete
Fresh-delete k j [] f = tt
Fresh-delete k j ((i, v) ∷ m) (f, fs) = elim (Bool-cases (str_eq i j)) [
  | inl b ↦ rw b (Fresh-delete k j m fs)
  | inr b ↦ rw b (f, Fresh-delete k j m fs)
]

pub delete-DistinctKeys :
    (k : String) (m : List (String × Entry)) → DistinctKeys m → DistinctKeys (Dict.delete k m)
unfolding Dict.delete
delete-DistinctKeys k [] d = tt
delete-DistinctKeys k ((i, v) ∷ m) (f, d) = elim (Bool-cases (str_eq i k)) [
  | inl b ↦ rw b (delete-DistinctKeys k m d)
  | inr b ↦ rw b (Fresh-delete i k m f, delete-DistinctKeys k m d)
]

-- A new key goes to the end.
insert-eq-append :
    (k : String) (e : Entry) (m : List (String × Entry))
    → Fresh k m
    → Dict.insert k e m ≡ m ++ (k, e) ∷ []
unfolding Dict.insert
insert-eq-append k e [] f = refl
insert-eq-append k e ((i, v) ∷ m) (f, fs) = rw (f, insert-eq-append k e m fs)

Fresh-snoc :
    (i k : String) (e : Entry) (m : List (String × Entry))
    → str_eq k i ≡ false
    → Fresh i m
    → Fresh i (m ++ (k, e) ∷ [])
Fresh-snoc i k e [] h f = (h, tt)
Fresh-snoc i k e (x ∷ m) h (f, fs) = (f, Fresh-snoc i k e m h fs)

-- No key of acc is a key of m.
abbrev Apart : List (String × Entry) → List (String × Entry) → Type 0
Apart acc m = All (λ e. Fresh e.0 acc) m

Apart-snoc :
    (k : String) (e : Entry) (acc m : List (String × Entry))
    → Fresh k m
    → Apart acc m
    → Apart (acc ++ (k, e) ∷ []) m
Apart-snoc k e acc [] f a = tt
Apart-snoc k e acc ((i, v) ∷ m) (f, fs) (a, as') =
    (Fresh-snoc i k e acc (str_eq-sym i k f) a, Apart-snoc k e acc m fs as')

Apart-nil : (m : List (String × Entry)) → Apart [] m
Apart-nil [] = tt
Apart-nil (e ∷ m) = (tt, Apart-nil m)

module _ (nfc lower : String → String) where
  -- Keys that Load keeps as they are.
  abbrev pub StableKeys : List (String × Entry) → Type 0
  StableKeys m = All (λ e. key nfc lower e.0 ≡ e.0) m

  rekey-append :
      (acc m : List (String × Entry))
      → Apart acc m
      → DistinctKeys m
      → StableKeys m
      → rekey nfc lower acc m ≡ acc ++ m
  unfolding rekey
  rekey-append acc [] a d s = sym (append-nil acc)
  rekey-append acc ((k, e) ∷ m) (a, as') (f, d) (s, ss) =
      rw (s, insert-eq-append k e acc a)
        (rekey-append (acc ++ (k, e) ∷ []) m (Apart-snoc k e acc m f as') d ss
          ∙ append_assoc acc ((k, e) ∷ []) m)

  rekey-DistinctKeys :
      (acc m : List (String × Entry)) → DistinctKeys acc → DistinctKeys (rekey nfc lower acc m)
  unfolding rekey
  rekey-DistinctKeys acc [] d = d
  rekey-DistinctKeys acc ((k, e) ∷ m) d =
      rekey-DistinctKeys (Dict.insert (key nfc lower k) e acc) m
        (insert-DistinctKeys (key nfc lower k) e acc d)

  pub load-DistinctKeys : (s : AliasStore) → DistinctKeys (load nfc lower s)
  unfolding load
  load-DistinctKeys s = elim (Bool-cases s.has_path) [ inl b ↦ rw b (go s.file) | inr b ↦ rw b tt ]
    where
      go : (f : AliasFile) → DistinctKeys (load_file nfc lower f)
      go absent = tt
      go damaged = tt
      go (entries m) = rekey-DistinctKeys [] m tt
      go (flat m) = rekey-DistinctKeys [] _ tt

  -- What was written is read back as it was.
  pub load-write :
      (all : List (String × Entry)) (s : AliasStore)
      → s.has_path ≡ true
      → DistinctKeys all
      → StableKeys all
      → load nfc lower (write nfc lower true all s).0 ≡ all
  unfolding load write
  load-write all s h d k = rw h (rekey-append [] all (Apart-nil all) d k)

  pub StableKeys-insert :
      (k : String) (e : Entry) (m : List (String × Entry))
      → key nfc lower k ≡ k
      → StableKeys m
      → StableKeys (Dict.insert k e m)
  unfolding Dict.insert
  StableKeys-insert k e [] h s = (h, tt)
  StableKeys-insert k e ((i, v) ∷ m) h (s, ss) = elim (Bool-cases (str_eq i k)) [
    | inl b ↦ rw b (h, ss)
    | inr b ↦ rw b (s, StableKeys-insert k e m h ss)
  ]

  pub StableKeys-delete :
      (k : String) (m : List (String × Entry)) → StableKeys m → StableKeys (Dict.delete k m)
  unfolding Dict.delete
  StableKeys-delete k [] s = tt
  StableKeys-delete k ((i, v) ∷ m) (s, ss) = elim (Bool-cases (str_eq i k)) [
    | inl b ↦ rw b (StableKeys-delete k m ss)
    | inr b ↦ rw b (s, StableKeys-delete k m ss)
  ]
