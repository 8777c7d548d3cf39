-- ===== src/Aliases/Directory.antt =====
-- internal/aliases/aliases.go against what it stands for: a directory, from the key of a reference to
-- the contact behind it. Saves and deletes on the file are changes of the directory.
use better_telegram_mcp.Base.{
  ◌≡◌, refl, ap, Bool, true, false, Option, none, some, List, [], ◌∷◌, String, All, if◌then◌else◌,
}
use better_telegram_mcp.Base.Text.{str_eq}
use better_telegram_mcp.Base.Dict
use better_telegram_mcp.Base.Dict.{lookup-insert, lookup-delete}
use better_telegram_mcp.Value.{string_key}
use better_telegram_mcp.Aliases.{
  Entry, AliasStore, Error, already_points_elsewhere, write_failed, no_alias_file, entries,
  reserved, key, load, lookup_alias, write, blocks, save, delete_alias,
}
use better_telegram_mcp.Aliases.Store.{
  insert-DistinctKeys, delete-DistinctKeys, load-DistinctKeys, DistinctKeys, StableKeys,
  StableKeys-insert, StableKeys-delete, load-write,
}

abbrev pub Directory : Type 0
Directory = String → Option Entry

-- The directory with another entry, or none, under a key.
abbrev pub put : String → Option Entry → Directory → Directory
put k v d j = if str_eq k j then v else d j

-- A Save with its entry and its replace, or a Delete; and whether the file can be written then.
pub data Change : Type 0 where
  saving : String → Entry → Bool → Bool → Change
  deleting : String → Bool → Change

abbrev pub alias_of : Change → String
alias_of (saving alias e replace writes) = alias
alias_of (deleting alias writes) = alias

module _ (nfc lower : String → String) where
  -- A change of the file, with its error.
  unfoldable pub apply : Change → AliasStore → AliasStore × Option Error
  apply (saving alias e replace writes) s = save nfc lower writes alias e replace s
  apply (deleting alias writes) s =
      let (s', known, e) = delete_alias nfc lower writes alias s in (s', e)

  unfoldable pub apply_all : List Change → AliasStore → AliasStore × List (Option Error)
  unfolding apply
  apply_all [] s = (s, [])
  apply_all (c ∷ cs) s = let (s', e) = apply c s in let (s'', es) = apply_all cs s' in (s'', e ∷ es)

  -- The change of the directory, with its error.
  unfoldable pub change : Change → Directory → Directory × Option Error
  change (saving alias e replace writes) d = elim (reserved (key nfc lower alias)) [
    | some reason ↦ (d, some reason)
    | none ↦
        if blocks nfc lower (d (key nfc lower alias)) e replace
        then (d, some already_points_elsewhere)
        else if writes
        then (put (key nfc lower alias) (some e) d, none)
        else (d, some write_failed)
  ]
  change (deleting alias writes) d = elim (d (key nfc lower alias)) [
    | none ↦ (d, none)
    | some e ↦ if writes then (put (key nfc lower alias) none d, none) else (d, some write_failed)
  ]

  unfoldable pub change_all : List Change → Directory → Directory × List (Option Error)
  unfolding change
  change_all [] d = (d, [])
  change_all (c ∷ cs) d =
      let (d', e) = change c d in let (d'', es) = change_all cs d' in (d'', e ∷ es)

  -- The file holds the directory, under keys that Load keeps.
  abbrev pub Holds : AliasStore → Directory → Type 0
  Holds s d =
      (s.has_path ≡ true)
      × StableKeys nfc lower (load nfc lower s)
      × ((k : String) → Dict.lookup k (load nfc lower s) ≡ d k)

  -- A store with its error agrees with a directory with its error.
  abbrev pub Agrees : AliasStore × Option Error → Directory × Option Error → Type 0
  Agrees (s, e) (d, x) = Holds s d × (e ≡ x)

  write-eq :
      (writes : Bool) (all : List (String × Entry)) (s : AliasStore)
      → s.has_path ≡ true
      → write nfc lower writes all s
        ≡ (if writes then (record s { file = entries all }, none) else (s, some write_failed))
  unfolding write
  write-eq writes all s p =
      ap
        (λ (b : Bool).
          if b
          then (if writes then (record s { file = entries all }, none) else (s, some write_failed))
          else (s, some no_alias_file))
        p

  -- What a write of these entries holds.
  write-Agrees :
      (writes : Bool) (all : List (String × Entry)) (s : AliasStore) (d d' : Directory)
      → Holds s d
      → DistinctKeys all
      → StableKeys nfc lower all
      → ((k : String) → Dict.lookup k all ≡ d' k)
      → Agrees
          (write nfc lower writes all s)
          (if writes then (d', none) else (d, some write_failed))
  write-Agrees false all s d d' h ds ss same = rw (write-eq false all s h.0) (h, refl)
  write-Agrees true all s d d' h ds ss same =
      let read = load-write nfc lower all s h.0 ds ss in
      let stored : load nfc lower (record s { file = entries all }) ≡ all =
        rw (write-eq true all s h.0) at read in
      rw (write-eq true all s h.0) ((h.0, rw stored ss, λ k. rw stored (same k)), refl)

  saving-Agrees :
      (r : Option Error) (b b' : Bool) (s : AliasStore) (d : Directory)
      (p : AliasStore × Option Error) (q : Directory × Option Error)
      → b ≡ b'
      → Holds s d
      → Agrees p q
      → Agrees
          (elim r [
            | some reason ↦ (s, some reason)
            | none ↦ if b then (s, some already_points_elsewhere) else p
          ])
          (elim r [
            | some reason ↦ (d, some reason)
            | none ↦ if b' then (d, some already_points_elsewhere) else q
          ])
  saving-Agrees (some reason) b b' s d p q e h w = (h, refl)
  saving-Agrees none true true s d p q e h w = (h, refl)
  saving-Agrees none false false s d p q e h w = w
  saving-Agrees none true false s d p q e h w = absurd (cc)
  saving-Agrees none false true s d p q e h w = absurd (cc)

  deleting-Agrees :
      (o o' : Option Entry) (s : AliasStore) (d : Directory) (p : AliasStore × Option Error)
      (q : Directory × Option Error)
      → o ≡ o'
      → Holds s d
      → Agrees p q
      → let (s', known, e) : AliasStore × Bool × Option Error = elim o [
        | none ↦ (s, false, none)
        | some entry ↦ (p.0, true, p.1)
      ] in
        Agrees (s', e) (elim o' [ none ↦ (d, none) | some e ↦ q ])
  deleting-Agrees none none s d p q e h w = (h, refl)
  deleting-Agrees (some x) (some y) s d p q e h w = w
  deleting-Agrees none (some y) s d p q e h w = absurd (cc)
  deleting-Agrees (some x) none s d p q e h w = absurd (cc)

  apply-Agrees :
      (c : Change) (s : AliasStore) (d : Directory)
      → Holds s d
      → key nfc lower (key nfc lower (alias_of c)) ≡ key nfc lower (alias_of c)
      → Agrees (apply c s) (change c d)
  unfolding apply change save delete_alias
  apply-Agrees (saving alias e replace writes) s d (p, st, same) stable =
      let k = key nfc lower alias in
      saving-Agrees (reserved k) _ _ s d _ _
        (ap (λ (o : Option Entry). blocks nfc lower o e replace) (same k)) (p, st, same)
        (write-Agrees writes (Dict.insert k e (load nfc lower s)) s d (put k (some e) d)
          (p, st, same) (insert-DistinctKeys k e _ (load-DistinctKeys nfc lower s))
          (StableKeys-insert nfc lower k e _ stable st)
          (λ j. rw (lookup-insert k j e (load nfc lower s), same j) refl))
  apply-Agrees (deleting alias writes) s d (p, st, same) stable =
      let k = key nfc lower alias in
      deleting-Agrees _ _ s d _ _ (same k) (p, st, same)
        (write-Agrees writes (Dict.delete k (load nfc lower s)) s d (put k none d) (p, st, same)
          (delete-DistinctKeys k _ (load-DistinctKeys nfc lower s))
          (StableKeys-delete nfc lower k _ st)
          (λ j. rw (lookup-delete k j (load nfc lower s), same j) refl))

  apply_all-Agrees :
      (cs : List Change) (s : AliasStore) (d : Directory)
      → Holds s d
      → All (λ c. key nfc lower (key nfc lower (alias_of c)) ≡ key nfc lower (alias_of c)) cs
      → Holds (apply_all cs s).0 (change_all cs d).0 × ((apply_all cs s).1 ≡ (change_all cs d).1)
  unfolding apply_all change_all
  apply_all-Agrees [] s d h k = (h, refl)
  apply_all-Agrees (c ∷ cs) s d h (k, ks) =
      let (h', e) = apply-Agrees c s d h k in
      let (h'', es) = apply_all-Agrees cs (apply c s).0 (change c d).0 h' ks in
      (h'', rw (e, es) refl)

  -- The file refines the directory: when the keys of the file and of the aliases are ones that Load
  -- keeps, then any sequence of saves and deletes, some of them with a file that cannot be written,
  -- reports the same errors as the changes of the directory that the file holds, and afterwards
  -- Lookup finds what that directory has under the reference's key.
  pub apply_all-change_all :
      (cs : List Change) (s : AliasStore)
      → s.has_path ≡ true
      → StableKeys nfc lower (load nfc lower s)
      → All (λ c. key nfc lower (key nfc lower (alias_of c)) ≡ key nfc lower (alias_of c)) cs
      → let (s', errors) = apply_all cs s in
        let (d, errors') = change_all cs (λ k. Dict.lookup k (load nfc lower s)) in
        (errors ≡ errors')
        × ((reference : String) → lookup_alias nfc lower reference s' ≡ d (key nfc lower reference))
  unfolding lookup_alias
  apply_all-change_all cs s p st ks =
      let (h, e) =
        apply_all-Agrees cs s (λ k. Dict.lookup k (load nfc lower s)) (p, st, λ k. refl) ks in
      (e, λ reference. h.2 (key nfc lower reference))
