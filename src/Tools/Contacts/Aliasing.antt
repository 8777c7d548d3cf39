-- ===== src/Tools/Contacts/Aliasing.antt =====
-- The alias actions of the `contact` tool run against the alias store of internal/aliases/aliases.go.
use better_telegram_mcp.Base.{
  ◌≡◌, ◌∙◌, refl, true, ◌||◌, Option, none, some, String, Bool-cases, inl, inr, arith, eq_refl,
}
use better_telegram_mcp.Base.Int.{ℤ}
use better_telegram_mcp.Base.Text.{str_eq}
use better_telegram_mcp.Base.Dict
use better_telegram_mcp.Base.Result.{Result, ok, err}
use better_telegram_mcp.Value.{Value, nil, Map, get, as_int, is_empty, string_key}
use better_telegram_mcp.Results.{GoError, alias_error, err_result}
use better_telegram_mcp.Programs.{done, call}
use better_telegram_mcp.Aliases.{
  Entry, AliasStore, Error, save, delete_alias as remove_alias, load, lookup_alias, key,
}
use better_telegram_mcp.Aliases.Store.{StableKeys}
use better_telegram_mcp.Aliases.Promises.{save-lookup_alias}
use better_telegram_mcp.Tools.Contacts.{
  ContactArgs, ContactCall, ContactAnswer, ContactProgram, get_chat_info, delete_alias, save_alias,
  alias_saved, alias_found, alias_name, contact_alias_set, alias_problem,
}

-- Every failure of the store, and of a call that is not one of the alias actions, is one error.
abbrev refusal : GoError
refusal = record { kind = alias_error; message = "refused"; type_name = "*aliases.Error" }

abbrev to_result {ℓ} : {A : Type ℓ} → A → Option Error → Result GoError A
to_result a none = ok a
to_result a (some e) = err refusal

error_shown : (m : String) → get "error" (err_result m) ≡ nil → ⊥
unfolding get err_result Dict.lookup
error_shown m h = ground (arith, h)

module _ (nfc lower : String → String) (chat_info : Value → Result GoError Map) where
  -- The alias calls are the store's operations, and GetChatInfo is Telegram's answer.
  abbrev pub serve : (c : ContactCall) → AliasStore → Result GoError (ContactAnswer c) × AliasStore
  serve (get_chat_info chat) s = (chat_info chat, s)
  serve (save_alias alias e replace) s =
      let (s', r) = save nfc lower true alias e replace s in (to_result e r, s')
  serve (delete_alias alias) s =
      let (s', known, r) = remove_alias nfc lower true alias s in (to_result known r, s')
  serve _ s = (err refusal, s)

  -- A program of the tool, run on the store.
  unfoldable pub run : ContactProgram → AliasStore → Map × AliasStore
  run (done r) s = (r, s)
  run (call c next) s = let (a, s') = serve c s in run (next a) s'

  -- What alias_set has done once Telegram has described the chat.
  run-alias_found :
      (args : ContactArgs) (info : Map) (s : AliasStore) (id : ℤ)
      → as_int (get "id" info) ≡ some id
      → run (alias_found nfc lower args info) s ≡ (
          let (s', r) =
            save nfc lower true args.alias
              (record { id = id; name = alias_name info })
              args.replace
              s in
          run
            (alias_saved nfc lower args (to_result (record { id = id; name = alias_name info }) r))
            s')
  unfolding run alias_found save
  run-alias_found args info s id h = rw (alias_found, h) refl

  get-refusal : get "error" (alias_problem refusal) ≡ nil → ⊥
  unfolding alias_problem err_result get Dict.lookup
  get-refusal h = ground (arith, h)

  saved_lem :
      (args : ContactArgs) (e : Entry) (s : AliasStore) (r : Option Error)
      → (save nfc lower true args.alias e args.replace s).1 ≡ r
      → StableKeys nfc lower (load nfc lower s)
      → key nfc lower (key nfc lower args.alias) ≡ key nfc lower args.alias
      → get "error"
          (run
            (alias_saved nfc lower args (to_result e r))
            (save nfc lower true args.alias e args.replace s).0).0
        ≡ nil
      → lookup_alias nfc lower args.alias
          (run
            (alias_saved nfc lower args (to_result e r))
            (save nfc lower true args.alias e args.replace s).0).1
        ≡ some e
  unfolding run
  saved_lem args e s (some r) h stable k good = absurd (get-refusal good)
  saved_lem args e s none h stable k good =
      save-lookup_alias nfc lower true args.alias args.alias e args.replace s stable k h
      ∙ rw (eq_refl (key nfc lower args.alias)) refl

  -- When Telegram describes the chat with an id, the keys of the alias file and the alias's own key
  -- are ones that Load keeps, and alias_set reports no error, then the alias resolves from then on to
  -- that id, under the chat's name.
  pub contact_alias_set-lookup_alias :
      (args : ContactArgs) (info : Map) (s : AliasStore) (id : ℤ)
      → chat_info args.chat_id ≡ ok info
      → as_int (get "id" info) ≡ some id
      → StableKeys nfc lower (load nfc lower s)
      → key nfc lower (key nfc lower args.alias) ≡ key nfc lower args.alias
      → get "error" (run (contact_alias_set nfc lower args) s).0 ≡ nil
      → lookup_alias nfc lower args.alias (run (contact_alias_set nfc lower args) s).1
        ≡ some (record { id = id; name = alias_name info })
  unfolding contact_alias_set run
  contact_alias_set-lookup_alias args info s id told h stable k =
      elim (Bool-cases (str_eq args.alias "" || is_empty args.chat_id)) [
        | inl b ↦ rw b (λ good. absurd (refused good))
        | inr b ↦
            rw (b, told, run-alias_found args info s id h)
              (saved_lem args (record { id = id; name = alias_name info }) s _ refl stable k)
      ]
    where
      refused :
          get "error" (
              err_result
                "'alias_set' requires alias and chat_id -- the wording the person actually used, and who it points at")
            ≡ nil
          → ⊥
      refused g = error_shown _ g
