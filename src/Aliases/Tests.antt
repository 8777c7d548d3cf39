-- ===== src/Aliases/Tests.antt =====
-- Runs of the alias store, and its theorems at concrete inputs.
use better_telegram_mcp.Base.{
  ap, arith, ◌≡◌, ◌≢◌, refl, true, false, none, some, List, [], ◌∷◌, String, if◌then◌else◌,
}
use better_telegram_mcp.Base.Int.{pos}
use better_telegram_mcp.Base.Text.{str_eq, trim_space, trim_prefix_char}
use better_telegram_mcp.Base.Dict
use better_telegram_mcp.Value.{string_key}
use better_telegram_mcp.Aliases.{
  Entry, absent, entries, AliasStore, reserved, key, rekey, load_file, load, lookup_alias, write,
  save, delete_alias, is_handle, looks_like_handle,
}
use better_telegram_mcp.Aliases.Directory.{
  Change, saving, deleting, apply_all, change_all, apply_all-change_all,
}
use better_telegram_mcp.Aliases.Promises.{save-lookup_alias, save-keeps_contact, save-unstable}

-- A Unicode table that knows no letter but these.
abbrev same : String → String
same s = s

abbrev mother : Entry
mother = record { id = pos 5; name = "Mother" }

abbrev other : Entry
other = record { id = pos 6; name = "Other" }

abbrev empty_store : AliasStore
empty_store = record { has_path = true; file = absent }

abbrev one_alias : AliasStore
one_alias = record { has_path = true; file = entries (("моя мама", mother) ∷ []) }

key_of_spaced : key same same "  моя   мама\t" ≡ "моя мама"
unfolding key load load_file rekey save write Dict.insert trim_prefix_char trim_space reserved
    is_handle Dict.lookup lookup_alias delete_alias
key_of_spaced = refl

key_of_yo : key same same "@ёж" ≡ "еж"
unfolding key load load_file rekey save write Dict.insert trim_prefix_char trim_space reserved
    is_handle Dict.lookup lookup_alias delete_alias
key_of_yo = refl

handle_refused : reserved (key same same "@durov") ≡ some looks_like_handle
unfolding key load load_file rekey save write Dict.insert trim_prefix_char trim_space reserved
    is_handle Dict.lookup lookup_alias delete_alias
handle_refused = refl

save-lookup_alias_example :
    lookup_alias same same " моя  мама" (save same same true "моя мама" other true one_alias).0 ≡ (
      if str_eq (key same same "моя мама") (key same same " моя  мама")
      then some other
      else lookup_alias same same " моя  мама" one_alias)
unfolding key load load_file rekey save write Dict.insert trim_prefix_char trim_space reserved
    is_handle Dict.lookup lookup_alias delete_alias
save-lookup_alias_example =
    save-lookup_alias same same true "моя мама" " моя  мама" other true one_alias (refl, tt) refl
      refl

-- The second save is refused, and the last cannot be written.
abbrev changes : List Change
changes =
    saving "тётя" other false true
    ∷ saving "моя мама" other false true
    ∷ deleting "моя мама" true
    ∷ saving "дядя" mother false false
    ∷ []

apply_all-change_all_example :
    let (s, errors) = apply_all same same changes one_alias in
    let (d, errors') =
      change_all same same changes (λ k. Dict.lookup k (load same same one_alias)) in
    (errors ≡ errors')
    × ((reference : String) → lookup_alias same same reference s ≡ d (key same same reference))
unfolding key load load_file rekey Dict.insert trim_prefix_char trim_space
apply_all-change_all_example =
    apply_all-change_all same same changes one_alias refl (refl, tt)
      (refl, (refl, (refl, (refl, tt))))

save-keeps_contact_example : mother.id ≡ mother.id
unfolding key load load_file rekey save write Dict.insert trim_prefix_char trim_space reserved
    is_handle Dict.lookup lookup_alias delete_alias
save-keeps_contact_example =
    save-keeps_contact same same true "моя мама" mother mother one_alias refl refl

key_twice_changed : key same same (key same same "@@мама") ≢ key same same "@@мама"
unfolding key load load_file rekey save write Dict.insert trim_prefix_char trim_space reserved
    is_handle Dict.lookup lookup_alias delete_alias
key_twice_changed h = let wrong : true ≡ false = ap (str_eq "мама") h in ground (arith, wrong)

save-unstable_example :
    let (s, r) = save same same true "@@мама" mother false empty_store in
    (r ≡ none) × (lookup_alias same same "@@мама" s ≡ none)
unfolding key load load_file rekey save write Dict.insert trim_prefix_char trim_space reserved
    is_handle Dict.lookup lookup_alias delete_alias
save-unstable_example = save-unstable same same "@@мама" mother refl key_twice_changed
