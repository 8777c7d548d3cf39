-- ===== src/Aliases.antt =====
-- internal/aliases/aliases.go: the local map from the words a person uses for a contact to the
-- Telegram id behind them, kept in one JSON file.
pub mod Promises
pub mod Directory
pub mod Store
mod Tests
use Prim.Native.Char.{code}
use Prim.Native.String.{[] as empty, ◌∷◌ as char}
use better_telegram_mcp.Base.{
  ℕ, ◌+◌, ◌≡◌, Bool, true, false, not, ◌&&◌, ◌||◌, Option, none, some, List, [], ◌∷◌, ◌++◌, map,
  String, leb, ◌==◌, if◌then◌else◌,
}
use better_telegram_mcp.Base.Int.{ℤ, eqb_ℤ}
use better_telegram_mcp.Base.Text.{
  str_eq, is_space, trim_space, trim_prefix_char, all_chars, rune_count,
}
use better_telegram_mcp.Base.Dict
use better_telegram_mcp.Value.{string_key}

pub record Entry : Type 0 where
  pub id : ℤ
  pub name : String

-- os.ReadFile and the two json.Unmarshal of Load: the file is absent, is neither shape, holds
-- entries, or holds the older flat shape. The order of a list is the order of Go's iteration.
pub data AliasFile : Type 0 where
  absent : AliasFile
  damaged : AliasFile
  entries : List (String × Entry) → AliasFile
  flat : List (String × ℤ) → AliasFile

-- Store, with its file. `has_path` says that its path is not empty.
pub record AliasStore : Type 0 where
  pub has_path : Bool
  pub file : AliasFile

-- Why an alias is refused, or a write fails.
pub data Error : Type 0 where
  empty_alias : Error
  self_reference : Error
  looks_like_handle : Error
  already_points_elsewhere : Error
  no_alias_file : Error
  write_failed : Error

-- strings.ReplaceAll(key, "ё", "е")
unfoldable pub replace_yo : String → String
replace_yo empty = empty
replace_yo (char c s) = if code c == 0x451 then char "е" (replace_yo s) else char c (replace_yo s)

-- A finished word joins the words; an empty one does not.
close_word : String → List String → List String
close_word empty ws = ws
close_word (char c w) ws = char c w ∷ ws

-- strings.Fields, with the word that is being read
unfoldable pub fields_from : String → String → List String
unfolding close_word is_space
fields_from word empty = close_word word []
fields_from word (char c s) =
    let closed = close_word word (fields_from empty s) in
    let longer = fields_from (Prim.Native.String.◌++◌ word (char c empty)) s in
    if is_space (code c) then closed else longer

-- strings.Join(words, " ")
unfoldable pub join_words : List String → String
join_words [] = empty
join_words (w ∷ []) = w
join_words (w ∷ ws) = Prim.Native.String.◌++◌ w (char " " (join_words ws))

-- [a-zA-Z0-9_]
unfoldable pub is_handle_char : ℕ → Bool
is_handle_char c =
    (leb b'a' c && leb c b'z')
    || (leb b'A' c && leb c b'Z')
    || (leb b'0' c && leb c b'9')
    || c == b'_'

-- handlePattern
unfoldable pub is_handle : String → Bool
unfolding is_handle_char all_chars rune_count trim_prefix_char
is_handle key =
    let rest = trim_prefix_char b'@' key in leb 5 (rune_count rest) && all_chars is_handle_char rest

-- Reserved; `none` is the empty reason
unfoldable pub reserved : String → Option Error
reserved key =
    if str_eq key ""
    then some empty_alias
    else if str_eq key "me" || str_eq key "self"
    then some self_reference
    else if is_handle key
    then some looks_like_handle
    else none

-- `nfc` is golang.org/x/text's norm.NFC.String and `lower` is strings.ToLower, by Unicode's tables.
module _ (nfc lower : String → String) where
  -- Key
  unfoldable pub key : String → String
  unfolding replace_yo fields_from join_words
  key text =
      let bare = trim_prefix_char b'@' (trim_space (nfc text)) in
      join_words (fields_from empty (replace_yo (lower bare)))

  -- the loops of Load that re-key what was read
  unfoldable pub rekey : List (String × Entry) → List (String × Entry) → List (String × Entry)
  rekey acc [] = acc
  rekey acc ((alias, entry) ∷ m) = rekey (Dict.insert (key alias) entry acc) m

  unfoldable pub load_file : AliasFile → List (String × Entry)
  load_file absent = []
  load_file damaged = []
  load_file (entries m) = rekey [] m
  load_file (flat m) = rekey [] (map (λ e. (e.0, record { id = e.1; name = "" })) m)

  -- Load
  unfoldable pub load : AliasStore → List (String × Entry)
  unfolding load_file
  load s = if s.has_path then load_file s.file else []

  -- Lookup
  unfoldable pub lookup_alias : String → AliasStore → Option Entry
  lookup_alias text s = Dict.lookup (key text) (load s)

  -- write; `writes` says whether the directory, the temporary file and the rename all succeeded
  unfoldable pub write : Bool → List (String × Entry) → AliasStore → AliasStore × Option Error
  write writes all s =
      if s.has_path
      then if writes then (record s { file = entries all }, none) else (s, some write_failed)
      else (s, some no_alias_file)

  -- `ok && existing.ID != entry.ID && !replace`
  unfoldable pub blocks : Option Entry → Entry → Bool → Bool
  blocks none entry replace = false
  blocks (some existing) entry replace = not (eqb_ℤ existing.id entry.id) && not replace

  -- Save
  unfoldable pub save : Bool → String → Entry → Bool → AliasStore → AliasStore × Option Error
  unfolding blocks
  save writes alias entry replace s = elim (reserved (key alias)) [
    | some reason ↦ (s, some reason)
    | none ↦
        if blocks (Dict.lookup (key alias) (load s)) entry replace
        then (s, some already_points_elsewhere)
        else write writes (Dict.insert (key alias) entry (load s)) s
  ]

  -- Delete: the new store, whether there was one, and the error
  unfoldable pub delete_alias : Bool → String → AliasStore → AliasStore × Bool × Option Error
  delete_alias writes alias s = elim (Dict.lookup (key alias) (load s)) [
    | none ↦ (s, false, none)
    | some entry ↦ let (s', e) = write writes (Dict.delete (key alias) (load s)) s in (s', true, e)
  ]
