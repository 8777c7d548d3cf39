-- ===== src/Tools/Chats/Complete.antt =====
-- Which calls the handlers of internal/tools/chats.go can make.
use better_telegram_mcp.Base.{◌≡◌, Bool, false, ◌&&◌, String, inl, inr, arith, Bool-cases}
use better_telegram_mcp.Base.Int.{ℤ}
use better_telegram_mcp.Base.Text.{str_eq}
use better_telegram_mcp.Value.{Value, is_empty}
use better_telegram_mcp.Programs.{is_unset, none_of}
use better_telegram_mcp.Programs.Calls.{
  Calls, done-Calls, ask-Calls, case-Calls, refuse-Calls, capable-Calls,
}
use better_telegram_mcp.Tools.Chats.{
  ChatArgs, ChatCall, ChatAnswer, chat_actions, serve_chat, handle_chat, list_chats, get_chat_info,
  create_chat, join_chat, leave_chat, get_members, promote_admin, full_chat, mute_chat,
  archive_chat, resolve_username, search_directory, common_chats, readers, get_invite_link,
  invite_to_chat, ban_user, set_permissions, set_slow_mode, list_admins, list_banned, recent_events,
  set_chat_photo, update_chat_settings, manage_topics, chat_list, chat_info, chat_create, chat_join,
  chat_leave, chat_members, chat_admin, chat_full, chat_mute, chat_archive, chat_resolve,
  chat_search_public, chat_common, chat_read_by, chat_invite_link, chat_invite, chat_ban,
  chat_permissions, chat_slow_mode, chat_admins, chat_banned, chat_recent_actions, chat_photo,
  chat_settings, chat_topics, is_none,
}

abbrev Given : Value → Type 0
Given chat = is_empty chat ≡ false

abbrev IsNonzero : ℤ → Type 0
IsNonzero id = is_unset id ≡ false

-- What a call must have been given.
abbrev pub Complete : ChatCall → Type 0
Complete (list_chats _) = Unit
Complete (get_chat_info chat) = Given chat
Complete (create_chat title _) = str_eq title "" ≡ false
Complete (join_chat link) = str_eq link "" ≡ false
Complete (leave_chat chat) = Given chat
Complete (get_members chat _) = Given chat
Complete (promote_admin chat user _) = Given chat × IsNonzero user
Complete (full_chat chat) = Given chat
Complete (mute_chat chat _) = Given chat
Complete (archive_chat chat _) = Given chat
Complete (resolve_username username) = str_eq username "" ≡ false
Complete (search_directory query _) = str_eq query "" ≡ false
Complete (common_chats user _) = IsNonzero user
Complete (readers chat id) = Given chat × IsNonzero id
Complete (get_invite_link chat _) = Given chat
Complete (invite_to_chat chat ids) = Given chat × (none_of ids ≡ false)
Complete (ban_user chat user _) = Given chat × IsNonzero user
Complete (set_permissions chat rights) = Given chat × (none_of rights ≡ false)
Complete (set_slow_mode chat _) = Given chat
Complete (list_admins chat _) = Given chat
Complete (list_banned chat _) = Given chat
Complete (recent_events chat _) = Given chat
Complete (set_chat_photo chat _) = Given chat
Complete (update_chat_settings chat title description) =
    Given chat × (is_none title && is_none description ≡ false)
Complete (manage_topics chat topic _ _ _) = Given chat × (str_eq topic "" ≡ false)

chat_list-Complete : (args : ChatArgs) → Calls Complete (chat_list args)
unfolding chat_list
chat_list-Complete args = ask-Calls ChatAnswer Complete _ _ tt

chat_info-Complete : (args : ChatArgs) → Calls Complete (chat_info args)
unfolding chat_info
chat_info-Complete args = refuse-Calls ChatAnswer Complete _ _ _ _ (λ e. ground (arith, e))

chat_create-Complete : (args : ChatArgs) → Calls Complete (chat_create args)
unfolding chat_create
chat_create-Complete args = refuse-Calls ChatAnswer Complete _ _ _ _ (λ e. ground (arith, e))

chat_join-Complete : (args : ChatArgs) → Calls Complete (chat_join args)
unfolding chat_join
chat_join-Complete args = refuse-Calls ChatAnswer Complete _ _ _ _ (λ e. ground (arith, e))

chat_leave-Complete : (args : ChatArgs) → Calls Complete (chat_leave args)
unfolding chat_leave
chat_leave-Complete args = refuse-Calls ChatAnswer Complete _ _ _ _ (λ e. ground (arith, e))

chat_members-Complete : (args : ChatArgs) → Calls Complete (chat_members args)
unfolding chat_members
chat_members-Complete args = refuse-Calls ChatAnswer Complete _ _ _ _ (λ e. ground (arith, e))

chat_admin-Complete : (args : ChatArgs) → Calls Complete (chat_admin args)
unfolding chat_admin
chat_admin-Complete args =
    refuse-Calls ChatAnswer Complete _ _ _ _ (λ e. (ground (arith, e), ground (arith, e)))

chat_full-Complete : (args : ChatArgs) → Calls Complete (chat_full args)
unfolding chat_full
chat_full-Complete args = refuse-Calls ChatAnswer Complete _ _ _ _ (λ e. ground (arith, e))

chat_mute-Complete : (args : ChatArgs) → Calls Complete (chat_mute args)
unfolding chat_mute
chat_mute-Complete args = refuse-Calls ChatAnswer Complete _ _ _ _ (λ e. ground (arith, e))

chat_archive-Complete : (args : ChatArgs) → Calls Complete (chat_archive args)
unfolding chat_archive
chat_archive-Complete args = refuse-Calls ChatAnswer Complete _ _ _ _ (λ e. ground (arith, e))

chat_resolve-Complete : (args : ChatArgs) → Calls Complete (chat_resolve args)
unfolding chat_resolve
chat_resolve-Complete args = refuse-Calls ChatAnswer Complete _ _ _ _ (λ e. ground (arith, e))

chat_search_public-Complete : (args : ChatArgs) → Calls Complete (chat_search_public args)
unfolding chat_search_public
chat_search_public-Complete args = refuse-Calls ChatAnswer Complete _ _ _ _ (λ e. ground (arith, e))

chat_common-Complete : (args : ChatArgs) → Calls Complete (chat_common args)
unfolding chat_common
chat_common-Complete args = refuse-Calls ChatAnswer Complete _ _ _ _ (λ e. ground (arith, e))

chat_read_by-Complete : (args : ChatArgs) → Calls Complete (chat_read_by args)
unfolding chat_read_by
chat_read_by-Complete args =
    refuse-Calls ChatAnswer Complete _ _ _ _ (λ e. (ground (arith, e), ground (arith, e)))

chat_invite_link-Complete : (args : ChatArgs) → Calls Complete (chat_invite_link args)
unfolding chat_invite_link
chat_invite_link-Complete args = refuse-Calls ChatAnswer Complete _ _ _ _ (λ e. ground (arith, e))

chat_invite-Complete : (args : ChatArgs) → Calls Complete (chat_invite args)
unfolding chat_invite
chat_invite-Complete args =
    refuse-Calls ChatAnswer Complete _ _ _ _ (λ e. (ground (arith, e), ground (arith, e)))

chat_ban-Complete : (args : ChatArgs) → Calls Complete (chat_ban args)
unfolding chat_ban
chat_ban-Complete args =
    refuse-Calls ChatAnswer Complete _ _ _ _ (λ e. (ground (arith, e), ground (arith, e)))

chat_permissions-Complete : (args : ChatArgs) → Calls Complete (chat_permissions args)
unfolding chat_permissions
chat_permissions-Complete args =
    refuse-Calls ChatAnswer Complete _ _ _ _ (λ e. (ground (arith, e), ground (arith, e)))

chat_slow_mode-Complete : (args : ChatArgs) → Calls Complete (chat_slow_mode args)
unfolding chat_slow_mode
chat_slow_mode-Complete args = refuse-Calls ChatAnswer Complete _ _ _ _ (λ e. ground (arith, e))

chat_admins-Complete : (args : ChatArgs) → Calls Complete (chat_admins args)
unfolding chat_admins
chat_admins-Complete args = refuse-Calls ChatAnswer Complete _ _ _ _ (λ e. ground (arith, e))

chat_banned-Complete : (args : ChatArgs) → Calls Complete (chat_banned args)
unfolding chat_banned
chat_banned-Complete args = refuse-Calls ChatAnswer Complete _ _ _ _ (λ e. ground (arith, e))

chat_recent_actions-Complete : (args : ChatArgs) → Calls Complete (chat_recent_actions args)
unfolding chat_recent_actions
chat_recent_actions-Complete args =
    refuse-Calls ChatAnswer Complete _ _ _ _ (λ e. ground (arith, e))

chat_photo-Complete : (args : ChatArgs) → Calls Complete (chat_photo args)
unfolding chat_photo
chat_photo-Complete args = refuse-Calls ChatAnswer Complete _ _ _ _ (λ e. ground (arith, e))

chat_settings-Complete : (args : ChatArgs) → Calls Complete (chat_settings args)
unfolding chat_settings
chat_settings-Complete args = elim (Bool-cases (is_empty args.chat_id)) [
  | inl e ↦ rw e (done-Calls ChatAnswer Complete _)
  | inr e ↦ rw e (refuse-Calls ChatAnswer Complete _ _ (update_chat_settings _ _ _) _ (λ h. (e, h)))
]

chat_topics-Complete : (args : ChatArgs) → Calls Complete (chat_topics args)
unfolding chat_topics
chat_topics-Complete args = elim (Bool-cases (is_empty args.chat_id)) [
  | inl e ↦ rw e (done-Calls ChatAnswer Complete _)
  | inr e ↦ rw e (refuse-Calls ChatAnswer Complete _ _ (manage_topics _ _ _ _ _) _ (λ h. (e, h)))
]

serve_chat-Complete :
    (lower : String → String) (args : ChatArgs) → Calls Complete (serve_chat lower args)
unfolding serve_chat
serve_chat-Complete lower args = case-Calls ChatAnswer Complete _ _ _ (chat_full-Complete args) (
    case-Calls ChatAnswer Complete _ _ _ (chat_mute-Complete args) (
      case-Calls ChatAnswer Complete _ _ _ (chat_archive-Complete args) (
        case-Calls ChatAnswer Complete _ _ _ (chat_resolve-Complete args) (
          case-Calls ChatAnswer Complete _ _ _ (chat_search_public-Complete args) (
            case-Calls ChatAnswer Complete _ _ _ (chat_common-Complete args) (
              case-Calls ChatAnswer Complete _ _ _ (chat_read_by-Complete args) (
                case-Calls ChatAnswer Complete _ _ _ (chat_invite_link-Complete args) (
                  case-Calls ChatAnswer Complete _ _ _ (chat_invite-Complete args) (
                    case-Calls ChatAnswer Complete _ _ _ (chat_ban-Complete args) (
                      case-Calls ChatAnswer Complete _ _ _ (chat_permissions-Complete args) (
                        case-Calls ChatAnswer Complete _ _ _ (chat_slow_mode-Complete args) (
                          case-Calls ChatAnswer Complete _ _ _ (chat_admins-Complete args) (
                            case-Calls ChatAnswer Complete _ _ _ (chat_banned-Complete args) (
                              case-Calls ChatAnswer Complete _ _ _
                                (chat_recent_actions-Complete args)
                                (case-Calls ChatAnswer Complete _ _ _ (chat_photo-Complete args)
                                  (done-Calls ChatAnswer Complete _))))))))))))))))

-- Whatever the arguments and whatever the backend answers, every call that HandleChat makes has
-- been given what it needs: a chat that is not empty, a user or message id that is not 0, a title,
-- link, username, query or topic action that is not empty, users or permissions that are not none,
-- and, to update the settings, a title or a description.
pub handle_chat-Complete :
    (lower : String → String) (extras : Bool) (args : ChatArgs)
    → Calls Complete (handle_chat lower extras args)
unfolding handle_chat
handle_chat-Complete lower extras args =
    case-Calls ChatAnswer Complete _ _ _ (chat_list-Complete args) (
      case-Calls ChatAnswer Complete _ _ _ (chat_info-Complete args) (
        case-Calls ChatAnswer Complete _ _ _ (chat_create-Complete args) (
          case-Calls ChatAnswer Complete _ _ _ (chat_join-Complete args) (
            case-Calls ChatAnswer Complete _ _ _ (chat_leave-Complete args) (
              case-Calls ChatAnswer Complete _ _ _ (chat_members-Complete args) (
                case-Calls ChatAnswer Complete _ _ _ (chat_admin-Complete args) (
                  case-Calls ChatAnswer Complete _ _ _ (chat_settings-Complete args) (
                    case-Calls ChatAnswer Complete _ _ _ (chat_topics-Complete args) (
                      capable-Calls ChatAnswer Complete lower chat_actions args.action extras _
                        (serve_chat-Complete lower args))))))))))
