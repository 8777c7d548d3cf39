-- ===== src/Aliases/Promises.antt =====
-- What Save, Delete and Lookup promise to one another.
use better_telegram_mcp.Base.{
  ◌≡◌, ◌≢◌, ◌∙◌, sym, ap, refl, Bool, true, false, none, some, String, arith, Option-cases, inl,
  inr, if◌then◌else◌, eq_iff,
}
use better_telegram_mcp.Base.Int.{eqb_ℤ_iff}
use better_telegram_mcp.Base.Text.{str_eq}
use better_telegram_mcp.Base.Dict
use better_telegram_mcp.Base.Dict.{lookup-insert, lookup-delete}
use better_telegram_mcp.Value.{string_key}
use better_telegram_mcp.Aliases.{
  Entry, absent, entries, AliasStore, Error, reserved, key, rekey, load_file, load, lookup_alias,
  write, blocks, save, delete_alias,
}
use better_telegram_mcp.Aliases.Store.{
  insert-DistinctKeys, delete-DistinctKeys, load-DistinctKeys, StableKeys, StableKeys-insert,
  StableKeys-delete, load-write,
}

module _ (nfc lower : String → String) where
  -- A save that succeeds has written the file with the entry put in.
  save-written :
      (writes : Bool) (alias : String) (e : Entry) (replace : Bool) (s : AliasStore)
      → (save nfc lower writes alias e replace s).1 ≡ none
      → (s.has_path ≡ true)
        × ((save nfc lower writes alias e replace s).0
            ≡ record s { file = entries (Dict.insert (key nfc lower alias) e (load nfc lower s)) })
  unfolding save write
  save-written writes alias e replace s h = ground arith

  -- When the keys of the file are ones that Load keeps, and so is the key of the alias, a Save that
  -- reports no error makes Lookup of every reference with the alias's key return the saved entry, and
  -- leaves every other Lookup as it was.
  pub save-lookup_alias :
      (writes : Bool) (alias text : String) (e : Entry) (replace : Bool) (s : AliasStore)
      → StableKeys nfc lower (load nfc lower s)
      → key nfc lower (key nfc lower alias) ≡ key nfc lower alias
      → (save nfc lower writes alias e replace s).1 ≡ none
      → lookup_alias nfc lower text (save nfc lower writes alias e replace s).0 ≡ (
          if str_eq (key nfc lower alias) (key nfc lower text)
          then some e
          else lookup_alias nfc lower text s)
  unfolding lookup_alias write
  save-lookup_alias writes alias text e replace s stable k h =
      let (p, eq) = save-written writes alias e replace s h in
      let all = Dict.insert (key nfc lower alias) e (load nfc lower s) in
      let written : (write nfc lower true all s).0 ≡ record s { file = entries all } =
        ground (arith, p) in
      let loaded =
        load-write nfc lower all s p
          (insert-DistinctKeys (key nfc lower alias) e (load nfc lower s)
            (load-DistinctKeys nfc lower s))
          (StableKeys-insert nfc lower (key nfc lower alias) e (load nfc lower s) k stable) in
      ap (λ t. Dict.lookup (key nfc lower text) (load nfc lower t)) (eq ∙ sym written)
      ∙ ap (Dict.lookup (key nfc lower text)) loaded
      ∙ lookup-insert (key nfc lower alias) (key nfc lower text) e (load nfc lower s)

  -- When the keys of the file are ones that Load keeps and the file can be written, after Delete
  -- Lookup finds nothing under the alias's key, and every other
  -- Lookup is as it was.
  pub delete_alias-lookup_alias :
      (alias text : String) (s : AliasStore)
      → StableKeys nfc lower (load nfc lower s)
      → s.has_path ≡ true
      → lookup_alias nfc lower text (delete_alias nfc lower true alias s).0 ≡ (
          if str_eq (key nfc lower alias) (key nfc lower text)
          then none
          else lookup_alias nfc lower text s)
  unfolding lookup_alias delete_alias
  delete_alias-lookup_alias alias text s stable p =
      let loaded =
        load-write nfc lower (Dict.delete (key nfc lower alias) (load nfc lower s)) s p
          (delete-DistinctKeys (key nfc lower alias) (load nfc lower s)
            (load-DistinctKeys nfc lower s))
          (StableKeys-delete nfc lower (key nfc lower alias) (load nfc lower s) stable) in
      elim (Option-cases (Dict.lookup (key nfc lower alias) (load nfc lower s))) [
        | inl h ↦
            rw (delete_alias, h)
              (ground (arith, h, eq_iff (key nfc lower alias) (key nfc lower text)))
        | inr (e, h) ↦
            rw (delete_alias, h)
              (ap (Dict.lookup (key nfc lower text)) loaded
                ∙ lookup-delete (key nfc lower alias) (key nfc lower text) (load nfc lower s))
      ]

  -- A Save that reports an error leaves the file as it was.
  pub save-refused :
      (writes : Bool) (alias : String) (e : Entry) (replace : Bool) (s : AliasStore) (r : Error)
      → (save nfc lower writes alias e replace s).1 ≡ some r
      → (save nfc lower writes alias e replace s).0 ≡ s
  unfolding save write
  save-refused writes alias e replace s r h = ground arith

  -- Without replace, a Save that succeeds on an alias that is known has the contact it pointed at.
  pub save-keeps_contact :
      (writes : Bool) (alias : String) (e old : Entry) (s : AliasStore)
      → lookup_alias nfc lower alias s ≡ some old
      → (save nfc lower writes alias e false s).1 ≡ none
      → old.id ≡ e.id
  unfolding save write lookup_alias blocks
  save-keeps_contact writes alias e old s h ok = ground (arith, eqb_ℤ_iff old.id e.id)

  -- A save under a key that Load changes is lost: on a store with no file, when the alias's key is
  -- not refused and reading that key back gives another, Save reports no error and yet Lookup of the
  -- same alias finds nothing.
  pub save-unstable :
      (alias : String) (e : Entry)
      → reserved (key nfc lower alias) ≡ none
      → key nfc lower (key nfc lower alias) ≢ key nfc lower alias
      → let (s, r) =
          save nfc lower true alias e false (record { has_path = true; file = absent }) in
        (r ≡ none) × (lookup_alias nfc lower alias s ≡ none)
  unfolding save write lookup_alias load load_file rekey blocks Dict.lookup Dict.insert
  save-unstable alias e h k =
      let no : str_eq (key nfc lower (key nfc lower alias)) (key nfc lower alias) ≡ false =
        ground (arith, k, eq_iff (key nfc lower (key nfc lower alias)) (key nfc lower alias)) in
      rw (save, h) (refl, rw no refl)
