-- ===== src/Tools/Filing/Complete.antt =====
-- Which calls the handlers of internal/tools/folders.go can make.
use better_telegram_mcp.Base.{◌≡◌, Bool, false, String, arith}
use better_telegram_mcp.Base.Int.{ℤ}
use better_telegram_mcp.Base.Text.{str_eq}
use better_telegram_mcp.Value.{Value, is_empty}
use better_telegram_mcp.Programs.{is_unset, none_of}
use better_telegram_mcp.Programs.Calls.{
  Calls, done-Calls, ask-Calls, case-Calls, refuse-Calls, capable-Calls,
}
use better_telegram_mcp.Tools.Filing.{
  FolderArgs, FolderCall, FolderAnswer, folder_actions, serve_folder, handle_folder, list_folders,
  get_folder, new_folder, remove_folder, sort_folders, set_folder_chat, folder_list, folder_get,
  folder_create, folder_delete, folder_reorder, folder_chat, is_nil,
}

abbrev Given : Value → Type 0
Given chat = is_empty chat ≡ false

abbrev IsNonzero : ℤ → Type 0
IsNonzero id = is_unset id ≡ false

-- What a call must have been given.
abbrev pub Complete : FolderCall → Type 0
Complete list_folders = Unit
Complete (get_folder folder) = IsNonzero folder
Complete (new_folder title _) = str_eq title "" ≡ false
Complete (remove_folder folder) = IsNonzero folder
Complete (sort_folders order) = none_of order ≡ false
Complete (set_folder_chat folder chat _) = IsNonzero folder × (is_nil chat ≡ false)

folder_list-Complete : (args : FolderArgs) → Calls Complete (folder_list args)
unfolding folder_list
folder_list-Complete args = ask-Calls FolderAnswer Complete _ _ tt

folder_get-Complete : (args : FolderArgs) → Calls Complete (folder_get args)
unfolding folder_get
folder_get-Complete args = refuse-Calls FolderAnswer Complete _ _ _ _ (λ e. ground (arith, e))

folder_create-Complete : (args : FolderArgs) → Calls Complete (folder_create args)
unfolding folder_create
folder_create-Complete args = refuse-Calls FolderAnswer Complete _ _ _ _ (λ e. ground (arith, e))

folder_delete-Complete : (args : FolderArgs) → Calls Complete (folder_delete args)
unfolding folder_delete
folder_delete-Complete args = refuse-Calls FolderAnswer Complete _ _ _ _ (λ e. ground (arith, e))

folder_reorder-Complete : (args : FolderArgs) → Calls Complete (folder_reorder args)
unfolding folder_reorder
folder_reorder-Complete args = refuse-Calls FolderAnswer Complete _ _ _ _ (λ e. ground (arith, e))

folder_chat-Complete : (args : FolderArgs) → Calls Complete (folder_chat args)
unfolding folder_chat
folder_chat-Complete args =
    refuse-Calls FolderAnswer Complete _ _ _ _ (λ e. (ground (arith, e), ground (arith, e)))

serve_folder-Complete :
    (lower : String → String) (args : FolderArgs) → Calls Complete (serve_folder lower args)
unfolding serve_folder
serve_folder-Complete lower args =
    case-Calls FolderAnswer Complete _ _ _ (folder_list-Complete args) (
      case-Calls FolderAnswer Complete _ _ _ (folder_get-Complete args) (
        case-Calls FolderAnswer Complete _ _ _ (folder_create-Complete args) (
          case-Calls FolderAnswer Complete _ _ _ (folder_delete-Complete args) (
            case-Calls FolderAnswer Complete _ _ _ (folder_chat-Complete args) (
              case-Calls FolderAnswer Complete _ _ _ (folder_reorder-Complete args)
                (done-Calls FolderAnswer Complete _))))))

-- Whatever the arguments and whatever the backend answers, every call that HandleFolder makes has
-- been given what it needs: a folder id that is not 0, a chat that was supplied, a title that is not
-- empty, and an order that is not empty.
pub handle_folder-Complete :
    (lower : String → String) (extras : Bool) (args : FolderArgs)
    → Calls Complete (handle_folder lower extras args)
unfolding handle_folder
handle_folder-Complete lower extras args =
    capable-Calls FolderAnswer Complete lower folder_actions args.action extras _
      (serve_folder-Complete lower args)
