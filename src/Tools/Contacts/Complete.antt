-- ===== src/Tools/Contacts/Complete.antt =====
-- Which calls the handlers of internal/tools/contacts.go can make.
use better_telegram_mcp.Base.{
  ◌≡◌, Bool, true, false, ◌||◌, String, inl, inr, arith, Bool-cases, Option-cases,
}
use better_telegram_mcp.Base.Int.{ℤ}
use better_telegram_mcp.Base.Text.{str_eq}
use better_telegram_mcp.Value.{Value, Map, is_empty}
use better_telegram_mcp.Programs.{is_unset, none_of}
use better_telegram_mcp.Programs.Calls.{
  Calls, done-Calls, answered-Calls, ask-Calls, case-Calls, refuse-Calls,
}
use better_telegram_mcp.Base.Result.{Result, ok, err}
use better_telegram_mcp.Value.{get, as_int}
use better_telegram_mcp.Results.{GoError}
use better_telegram_mcp.Aliases.{Entry}
use better_telegram_mcp.Tools.Contacts.{
  handle_contact_extra, alias_deleted, alias_saved, alias_found, contact_alias_delete,
  contact_alias_list, contact_alias_set, handle_alias, ContactArgs, ContactCall, ContactAnswer,
  serve_contact, handle_contact, list_contacts, search_contacts, add_contact, block_user,
  delete_contact, import_contacts, export_contacts, blocked_list, last_interaction,
  send_contact_card, direct_chat, get_chat_info, list_aliases, delete_alias, save_alias,
  contact_list, contact_search, contact_add, contact_block, contact_delete, contact_import,
  contact_export, contact_blocked, contact_last_seen, contact_send_card, contact_direct,
  contact_alias_delete, contact_alias_list,
}

abbrev Given : Value → Type 0
Given chat = is_empty chat ≡ false

abbrev IsNonzero : ℤ → Type 0
IsNonzero id = is_unset id ≡ false

-- What a call must have been given.
abbrev pub Complete : ContactCall → Type 0
Complete list_contacts = Unit
Complete (search_contacts query) = str_eq query "" ≡ false
Complete (add_contact phone first last) = (str_eq phone "" ≡ false) × (str_eq first "" ≡ false)
Complete (block_user user _) = IsNonzero user
Complete (delete_contact user) = IsNonzero user
Complete (import_contacts contacts) = none_of contacts ≡ false
Complete export_contacts = Unit
Complete (blocked_list _) = Unit
Complete (last_interaction user) = IsNonzero user
Complete (send_contact_card chat user) = Given chat × IsNonzero user
Complete (direct_chat query) = str_eq query "" ≡ false
Complete (get_chat_info chat) = Given chat
Complete list_aliases = Unit
Complete (delete_alias alias) = str_eq alias "" ≡ false
Complete (save_alias alias _ _) = str_eq alias "" ≡ false

contact_list-Complete : (args : ContactArgs) → Calls Complete (contact_list args)
unfolding contact_list
contact_list-Complete args = ask-Calls ContactAnswer Complete _ _ tt

contact_search-Complete : (args : ContactArgs) → Calls Complete (contact_search args)
unfolding contact_search
contact_search-Complete args = refuse-Calls ContactAnswer Complete _ _ _ _ (λ e. ground (arith, e))

contact_add-Complete : (args : ContactArgs) → Calls Complete (contact_add args)
unfolding contact_add
contact_add-Complete args =
    refuse-Calls ContactAnswer Complete _ _ _ _ (λ e. (ground (arith, e), ground (arith, e)))

contact_block-Complete : (args : ContactArgs) → Calls Complete (contact_block args)
unfolding contact_block
contact_block-Complete args = refuse-Calls ContactAnswer Complete _ _ _ _ (λ e. ground (arith, e))

contact_delete-Complete : (args : ContactArgs) → Calls Complete (contact_delete args)
unfolding contact_delete
contact_delete-Complete args = refuse-Calls ContactAnswer Complete _ _ _ _ (λ e. ground (arith, e))

contact_import-Complete : (args : ContactArgs) → Calls Complete (contact_import args)
unfolding contact_import
contact_import-Complete args = refuse-Calls ContactAnswer Complete _ _ _ _ (λ e. ground (arith, e))

contact_export-Complete : (args : ContactArgs) → Calls Complete (contact_export args)
unfolding contact_export
contact_export-Complete args = ask-Calls ContactAnswer Complete _ _ tt

contact_blocked-Complete : (args : ContactArgs) → Calls Complete (contact_blocked args)
unfolding contact_blocked
contact_blocked-Complete args = ask-Calls ContactAnswer Complete _ _ tt

contact_last_seen-Complete : (args : ContactArgs) → Calls Complete (contact_last_seen args)
unfolding contact_last_seen
contact_last_seen-Complete args =
    refuse-Calls ContactAnswer Complete _ _ _ _ (λ e. ground (arith, e))

contact_send_card-Complete : (args : ContactArgs) → Calls Complete (contact_send_card args)
unfolding contact_send_card
contact_send_card-Complete args =
    refuse-Calls ContactAnswer Complete _ _ _ _ (λ e. (ground (arith, e), ground (arith, e)))

contact_direct-Complete : (args : ContactArgs) → Calls Complete (contact_direct args)
unfolding contact_direct
contact_direct-Complete args = refuse-Calls ContactAnswer Complete _ _ _ _ (λ e. ground (arith, e))

contact_alias_delete-Complete : (args : ContactArgs) → Calls Complete (contact_alias_delete args)
unfolding contact_alias_delete Calls
contact_alias_delete-Complete args = elim (Bool-cases (str_eq args.alias "")) [
  | inl e ↦ rw e tt
  | inr e ↦ rw e (e, answer)
]
  where
    answer : (a : Result GoError Bool) → Calls Complete (alias_deleted args a)
    answer (err e) = tt
    answer (ok true) = tt
    answer (ok false) = tt

contact_alias_list-Complete : Calls Complete contact_alias_list
unfolding contact_alias_list
contact_alias_list-Complete = ask-Calls ContactAnswer Complete _ _ tt

alias_found-Complete :
    (nfc lower : String → String) (args : ContactArgs) (info : Map)
    → str_eq args.alias "" ≡ false
    → Calls Complete (alias_found nfc lower args info)
unfolding alias_found Calls
alias_found-Complete nfc lower args info e = elim (Option-cases (as_int (get "id" info))) [
  | inl h ↦ rw (alias_found, h) tt
  | inr (id, h) ↦ rw (alias_found, h) (e, answer)
]
  where
    answer : (a : Result GoError Entry) → Calls Complete (alias_saved nfc lower args a)
    answer (err e) = tt
    answer (ok s) = tt

contact_alias_set-Complete :
    (nfc lower : String → String) (args : ContactArgs)
    → Calls Complete (contact_alias_set nfc lower args)
unfolding contact_alias_set Calls
contact_alias_set-Complete nfc lower args =
    elim (Bool-cases (str_eq args.alias "" || is_empty args.chat_id)) [
      | inl e ↦ rw e tt
      | inr e ↦
          let named : str_eq args.alias "" ≡ false = ground (arith, e) in
          let given : is_empty args.chat_id ≡ false = ground (arith, e) in
          rw e (
            given,
            λ a.
                answered-Calls ContactAnswer Complete _ a
                  (λ info. alias_found-Complete nfc lower args info named),
          )
    ]

handle_alias-Complete :
    (nfc lower : String → String) (args : ContactArgs)
    → Calls Complete (handle_alias nfc lower args)
unfolding handle_alias
handle_alias-Complete nfc lower args =
    case-Calls ContactAnswer Complete _ _ _ contact_alias_list-Complete (
      case-Calls ContactAnswer Complete _ _ _ (contact_alias_delete-Complete args)
        (contact_alias_set-Complete nfc lower args))

serve_contact-Complete :
    (nfc lower : String → String) (args : ContactArgs)
    → Calls Complete (serve_contact nfc lower args)
unfolding serve_contact
serve_contact-Complete nfc lower args =
    case-Calls ContactAnswer Complete _ _ _ (contact_delete-Complete args) (
      case-Calls ContactAnswer Complete _ _ _ (contact_import-Complete args) (
        case-Calls ContactAnswer Complete _ _ _ (contact_export-Complete args) (
          case-Calls ContactAnswer Complete _ _ _ (contact_blocked-Complete args) (
            case-Calls ContactAnswer Complete _ _ _ (contact_last_seen-Complete args) (
              case-Calls ContactAnswer Complete _ _ _ (contact_send_card-Complete args) (
                case-Calls ContactAnswer Complete _ _ _ (contact_direct-Complete args)
                  (done-Calls ContactAnswer Complete _)))))))

handle_contact_extra-Complete :
    (nfc lower : String → String) (extras : Bool) (args : ContactArgs)
    → Calls Complete (handle_contact_extra nfc lower extras args)
unfolding handle_contact_extra
handle_contact_extra-Complete nfc lower extras args =
    case-Calls ContactAnswer Complete _ _ _ (done-Calls ContactAnswer Complete _) (
      case-Calls ContactAnswer Complete _ _ _ (handle_alias-Complete nfc lower args) (
        case-Calls ContactAnswer Complete _ _ _ (serve_contact-Complete nfc lower args)
          (done-Calls ContactAnswer Complete _)))

-- Whatever the arguments and whatever the backend answers, every call that HandleContact makes has
-- been given what it needs: a chat that is not empty, a user id that is not 0, a query, phone, first
-- name or alias that is not empty, and contacts that are not none.
pub handle_contact-Complete :
    (nfc lower : String → String) (extras : Bool) (args : ContactArgs)
    → Calls Complete (handle_contact nfc lower extras args)
unfolding handle_contact
handle_contact-Complete nfc lower extras args =
    case-Calls ContactAnswer Complete _ _ _ (contact_list-Complete args) (
      case-Calls ContactAnswer Complete _ _ _ (contact_search-Complete args) (
        case-Calls ContactAnswer Complete _ _ _ (contact_add-Complete args) (
          case-Calls ContactAnswer Complete _ _ _ (contact_block-Complete args)
            (handle_contact_extra-Complete nfc lower extras args))))
