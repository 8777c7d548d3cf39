-- ===== src/Tools/Filing.antt =====
-- internal/tools/folders.go: the `folder` tool.
pub mod Complete
use better_telegram_mcp.Base.{
  ℕ, ◌≡◌, Bool, true, false, not, ◌&&◌, ◌||◌, Option, none, some, List, [], ◌∷◌, String, ltb,
  length, if◌then◌else◌, inl, inr, arith, Bool-cases,
}
use better_telegram_mcp.Base.Int.{ℤ, pos, ltb_ℤ}
use better_telegram_mcp.Base.Text.{str_eq}
use better_telegram_mcp.Value.{
  Value, nil, bool, int, text, list, object, Fields, end, field, Map, is_empty,
}
use better_telegram_mcp.Results.{err_result, unknown_action}
use better_telegram_mcp.Programs.{
  done, call, answered, ask, capable, counted, flag, is_unset, none_of, or_true,
}
use better_telegram_mcp.Programs

-- FolderArgs. A number the caller left out is 0, and a text "".
pub record FolderArgs : Type 0 where
  pub action : String
  pub folder_id : ℤ
  pub title : String
  pub chat_id : Value
  pub chats : List Value
  pub order : List ℤ

-- The calls of the backend that the tool makes.
pub data FolderCall : Type 0 where
  list_folders : FolderCall
  get_folder : ℤ → FolderCall
  new_folder : String → List Value → FolderCall
  remove_folder : ℤ → FolderCall
  sort_folders : List ℤ → FolderCall
  set_folder_chat : ℤ → Value → Bool → FolderCall

abbrev pub FolderAnswer : FolderCall → Type 0
FolderAnswer list_folders = List Map
FolderAnswer (remove_folder _) = Bool
FolderAnswer (sort_folders _) = Bool
FolderAnswer _ = Map

abbrev pub FolderProgram : Type 0
FolderProgram = Programs.Program FolderCall FolderAnswer

-- `value == nil`
abbrev pub is_nil : Value → Bool
is_nil nil = true
is_nil _ = false

-- HandleFolder, add_chat and remove_chat
unfoldable pub folder_chat : FolderArgs → FolderProgram
folder_chat args =
    if is_unset args.folder_id || is_nil args.chat_id
    then done (
        err_result (
          Prim.Native.String.◌++◌ "'"
            (Prim.Native.String.◌++◌ args.action "' requires folder_id and chat_id")))
    else ask (set_folder_chat args.folder_id args.chat_id (str_eq args.action "remove_chat"))
        (λ r. r)

-- HandleFolder, list
unfoldable pub folder_list : FolderArgs → FolderProgram
folder_list args = ask list_folders (counted "folders")

-- HandleFolder, get
unfoldable pub folder_get : FolderArgs → FolderProgram
folder_get args =
    if is_unset args.folder_id
    then done (err_result "'get' requires folder_id")
    else ask (get_folder args.folder_id) (λ r. r)

-- HandleFolder, create
unfoldable pub folder_create : FolderArgs → FolderProgram
folder_create args =
    if str_eq args.title ""
    then done (err_result "'create' requires title")
    else ask (new_folder args.title args.chats) (λ r. r)

-- HandleFolder, delete
unfoldable pub folder_delete : FolderArgs → FolderProgram
folder_delete args =
    if is_unset args.folder_id
    then done (err_result "'delete' requires folder_id")
    else ask (remove_folder args.folder_id) (flag "deleted")

-- HandleFolder, reorder
unfoldable pub folder_reorder : FolderArgs → FolderProgram
folder_reorder args =
    if none_of args.order
    then done (err_result "'reorder' requires order")
    else ask (sort_folders args.order) (flag "reordered")

-- folderActions
abbrev pub folder_actions : List String
folder_actions = "add_chat" ∷ "create" ∷ "delete" ∷ "get" ∷ "list" ∷ "remove_chat" ∷ "reorder" ∷ []

module _ (lower : String → String) where
  -- the switch of HandleFolder
  unfoldable pub serve_folder : FolderArgs → FolderProgram
  serve_folder args =
      if str_eq args.action "list"
      then folder_list args
      else if str_eq args.action "get"
      then folder_get args
      else if str_eq args.action "create"
      then folder_create args
      else if str_eq args.action "delete"
      then folder_delete args
      else if str_eq args.action "add_chat" || str_eq args.action "remove_chat"
      then folder_chat args
      else if str_eq args.action "reorder"
      then folder_reorder args
      else done (unknown_action lower args.action folder_actions)

  -- HandleFolder; `extras` says whether the backend has the capability
  unfoldable pub handle_folder : Bool → FolderArgs → FolderProgram
  unfolding serve_folder capable
  handle_folder extras args = capable lower folder_actions args.action extras (serve_folder args)
