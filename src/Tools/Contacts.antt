-- ===== src/Tools/Contacts.antt =====
-- internal/tools/contacts.go: the `contact` tool.
pub mod Complete
pub mod Aliasing
use better_telegram_mcp.Base.{
  ℕ, ◌≡◌, Bool, true, false, not, ◌&&◌, ◌||◌, Option, none, some, List, [], ◌∷◌, String, ltb,
  length, if◌then◌else◌, inl, inr, arith, Bool-cases,
}
use better_telegram_mcp.Base.Int.{ℤ, pos, ltb_ℤ}
use better_telegram_mcp.Base.Text.{str_eq}
use better_telegram_mcp.Value.{
  Value, nil, bool, int, text, list, object, Fields, end, field, Map, is_empty,
}
use better_telegram_mcp.Results.{err_result, unknown_action}
use better_telegram_mcp.Programs.{
  done, call, answered, ask, capable, counted, flag, is_unset, none_of, or_true,
}
use better_telegram_mcp.Programs
use better_telegram_mcp.Base.Text.{contains, trim_space}
use better_telegram_mcp.Base.Result.{Result, ok, err}
use better_telegram_mcp.Value.{get, as_int, string_key}
use better_telegram_mcp.Results.{GoError, alias_error, safe_error}
use better_telegram_mcp.Programs.{needs_user}
use better_telegram_mcp.Aliases.{Entry, key}

-- ContactEntry of internal/telegram/capabilities.go
pub record ContactEntry : Type 0 where
  pub phone : String
  pub first_name : String
  pub last_name : String

-- ContactArgs. A number the caller left out is 0, and a text "".
pub record ContactArgs : Type 0 where
  pub action : String
  pub query : String
  pub phone : String
  pub first_name : String
  pub last_name : String
  pub user_id : ℤ
  pub unblock : Bool
  pub limit : ℤ
  pub chat_id : Value
  pub contacts : List ContactEntry
  pub alias : String
  pub replace : Bool

-- The calls of the backend that the tool makes.
pub data ContactCall : Type 0 where
  list_contacts : ContactCall
  search_contacts : String → ContactCall
  add_contact : String → String → String → ContactCall
  block_user : ℤ → Bool → ContactCall
  delete_contact : ℤ → ContactCall
  import_contacts : List ContactEntry → ContactCall
  export_contacts : ContactCall
  blocked_list : ℤ → ContactCall
  last_interaction : ℤ → ContactCall
  send_contact_card : Value → ℤ → ContactCall
  direct_chat : String → ContactCall
  get_chat_info : Value → ContactCall
  list_aliases : ContactCall
  delete_alias : String → ContactCall
  save_alias : String → Entry → Bool → ContactCall

abbrev pub ContactAnswer : ContactCall → Type 0
ContactAnswer list_contacts = List Map
ContactAnswer (search_contacts _) = List Map
ContactAnswer (add_contact _ _ _) = Bool
ContactAnswer (block_user _ _) = Bool
ContactAnswer (delete_contact _) = Bool
ContactAnswer export_contacts = List Map
ContactAnswer (blocked_list _) = List Map
ContactAnswer list_aliases = List Map × String
ContactAnswer (delete_alias _) = Bool
ContactAnswer (save_alias _ _ _) = Entry
ContactAnswer _ = Map

abbrev pub ContactProgram : Type 0
ContactProgram = Programs.Program ContactCall ContactAnswer

-- `value, _ := info[key].(string)`
abbrev text_or_empty : Value → String
text_or_empty (text s) = s
text_or_empty _ = ""

-- trimSpaceJoin of two parts
unfoldable pub trim_space_join : String → String → String
trim_space_join first last =
    if str_eq first ""
    then last
    else if str_eq last ""
    then first
    else Prim.Native.String.◌++◌ first (Prim.Native.String.◌++◌ " " last)

-- the name that an alias gets
unfoldable pub alias_name : Map → String
unfolding trim_space_join get
alias_name info =
    if str_eq (text_or_empty (get "title" info)) ""
    then trim_space_join (text_or_empty (get "first_name" info))
        (text_or_empty (get "last_name" info))
    else text_or_empty (get "title" info)

-- aliasError
unfoldable pub alias_problem : GoError → Map
alias_problem e = elim e.kind [ alias_error ↦ err_result e.message | _ ↦ safe_error e ]

-- What follows the answer of Delete.
abbrev pub alias_deleted : ContactArgs → Result GoError Bool → ContactProgram
alias_deleted args (err e) = done (alias_problem e)
alias_deleted args (ok false) = done (
    err_result
      (Prim.Native.String.◌++◌ "No alias " (Prim.Native.String.◌++◌ args.alias " is saved.")))
alias_deleted args (ok true) = done (("deleted", bool true) ∷ ("alias", text args.alias) ∷ [])

-- handleAlias, alias_delete; the quotes that %q puts around the alias are left out
unfoldable pub contact_alias_delete : ContactArgs → ContactProgram
contact_alias_delete args =
    if str_eq args.alias ""
    then done (err_result "'alias_delete' requires alias")
    else call (delete_alias args.alias) (alias_deleted args)

-- handleAlias, alias_list
unfoldable pub contact_alias_list : ContactProgram
contact_alias_list = ask list_aliases (λ a. ("file", text a.1) ∷ counted "aliases" a.0)

module _ (nfc lower : String → String) where
  -- What follows the answer of Save.
  abbrev pub alias_saved : ContactArgs → Result GoError Entry → ContactProgram
  alias_saved args (err e) = done (alias_problem e)
  alias_saved args (ok saved) = done (
      ("saved", bool true)
      ∷ ("alias", text (key nfc lower args.alias))
      ∷ ("id", int saved.id)
      ∷ ("name", text saved.name)
      ∷ [])

  -- handleAlias, alias_set once Telegram has described the chat
  unfoldable pub alias_found : ContactArgs → Map → ContactProgram
  unfolding alias_name
  alias_found args info = elim (as_int (get "id" info)) [
    | none ↦
        done (err_result "Telegram did not return an id for that chat, so the alias was not saved.")
    | some id ↦
        call (save_alias args.alias (record { id = id; name = alias_name info }) args.replace)
          (alias_saved args)
  ]

  -- handleAlias, alias_set
  unfoldable pub contact_alias_set : ContactArgs → ContactProgram
  unfolding alias_found
  contact_alias_set args =
      if str_eq args.alias "" || is_empty args.chat_id
      then done (
          err_result
            "'alias_set' requires alias and chat_id -- the wording the person actually used, and who it points at")
      else call (get_chat_info args.chat_id) (answered (alias_found args))

  -- handleAlias, for one of the three alias actions
  unfoldable pub handle_alias : ContactArgs → ContactProgram
  handle_alias args =
      if str_eq args.action "alias_list"
      then contact_alias_list
      else if str_eq args.action "alias_delete"
      then contact_alias_delete args
      else contact_alias_set args

abbrev pub is_alias_action : String → Bool
is_alias_action action =
    str_eq action "alias_set" || str_eq action "alias_list" || str_eq action "alias_delete"

-- HandleContact, list
unfoldable pub contact_list : ContactArgs → ContactProgram
contact_list args = ask list_contacts (counted "contacts")

-- HandleContact, search
unfoldable pub contact_search : ContactArgs → ContactProgram
contact_search args =
    if str_eq args.query ""
    then done (err_result "'search' requires query")
    else ask (search_contacts args.query) (counted "contacts")

-- HandleContact, add
unfoldable pub contact_add : ContactArgs → ContactProgram
contact_add args =
    if str_eq args.phone "" || str_eq args.first_name ""
    then done (err_result "'add' requires phone and first_name")
    else ask (add_contact args.phone args.first_name args.last_name) (flag "added")

-- HandleContact, block
unfoldable pub contact_block : ContactArgs → ContactProgram
contact_block args =
    if is_unset args.user_id
    then done (err_result "'block' requires user_id")
    else ask (block_user args.user_id args.unblock)
        (flag (if args.unblock then "unblocked" else "blocked"))

-- handleContactExtra, delete
unfoldable pub contact_delete : ContactArgs → ContactProgram
contact_delete args =
    if is_unset args.user_id
    then done (err_result "'delete' requires user_id")
    else ask (delete_contact args.user_id) (flag "deleted")

-- handleContactExtra, import
unfoldable pub contact_import : ContactArgs → ContactProgram
contact_import args =
    if none_of args.contacts
    then done (
        err_result
          "'import' requires contacts, e.g. [{\"phone\": \"+491701234567\", \"first_name\": \"Ada\"}]")
    else ask (import_contacts args.contacts) (λ r. r)

-- handleContactExtra, export
unfoldable pub contact_export : ContactArgs → ContactProgram
contact_export args = ask export_contacts (counted "contacts")

-- handleContactExtra, blocked
unfoldable pub contact_blocked : ContactArgs → ContactProgram
contact_blocked args = ask (blocked_list args.limit) (counted "blocked")

-- handleContactExtra, last_seen
unfoldable pub contact_last_seen : ContactArgs → ContactProgram
contact_last_seen args =
    if is_unset args.user_id
    then done (err_result "'last_seen' requires user_id")
    else ask (last_interaction args.user_id) (λ r. r)

-- handleContactExtra, send_card
unfoldable pub contact_send_card : ContactArgs → ContactProgram
contact_send_card args =
    if is_empty args.chat_id || is_unset args.user_id
    then done (err_result "'send_card' requires chat_id and user_id")
    else ask (send_contact_card args.chat_id args.user_id) (λ r. r)

-- handleContactExtra, direct
unfoldable pub contact_direct : ContactArgs → ContactProgram
contact_direct args =
    if str_eq args.query ""
    then done (err_result "'direct' requires query")
    else ask (direct_chat args.query) (λ r. r)

-- contactActions
abbrev pub contact_actions : List String
contact_actions =
    "add" ∷ "alias_delete" ∷ "alias_list" ∷ "alias_set" ∷ "block" ∷ "blocked" ∷ "delete" ∷ "direct"
    ∷ "export" ∷ "import" ∷ "last_seen" ∷ "list" ∷ "search" ∷ "send_card" ∷ []

module _ (nfc lower : String → String) where
  -- the switch of handleContactExtra
  unfoldable pub serve_contact : ContactArgs → ContactProgram
  serve_contact args =
      if str_eq args.action "delete"
      then contact_delete args
      else if str_eq args.action "import"
      then contact_import args
      else if str_eq args.action "export"
      then contact_export args
      else if str_eq args.action "blocked"
      then contact_blocked args
      else if str_eq args.action "last_seen"
      then contact_last_seen args
      else if str_eq args.action "send_card"
      then contact_send_card args
      else if str_eq args.action "direct"
      then contact_direct args
      else done (unknown_action lower args.action contact_actions)

  -- handleContactExtra; `extras` says whether the backend has the capability
  unfoldable pub handle_contact_extra : Bool → ContactArgs → ContactProgram
  unfolding serve_contact
  handle_contact_extra extras args =
      if not (contains contact_actions args.action)
      then done (unknown_action lower args.action contact_actions)
      else if is_alias_action args.action
      then handle_alias nfc lower args
      else if extras
      then serve_contact args
      else done (safe_error needs_user)

  -- HandleContact
  unfoldable pub handle_contact : Bool → ContactArgs → ContactProgram
  unfolding handle_contact_extra
  handle_contact extras args =
      if str_eq args.action "list"
      then contact_list args
      else if str_eq args.action "search"
      then contact_search args
      else if str_eq args.action "add"
      then contact_add args
      else if str_eq args.action "block"
      then contact_block args
      else handle_contact_extra extras args
