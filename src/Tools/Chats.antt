-- ===== src/Tools/Chats.antt =====
-- internal/tools/chats.go: the `chat` tool.
pub mod Complete
use better_telegram_mcp.Base.{
  ℕ, ◌≡◌, Bool, true, false, not, ◌&&◌, ◌||◌, Option, none, some, List, [], ◌∷◌, String, ltb,
  length, if◌then◌else◌, inl, inr, arith, Bool-cases,
}
use better_telegram_mcp.Base.Int.{ℤ, pos, ltb_ℤ}
use better_telegram_mcp.Base.Text.{str_eq}
use better_telegram_mcp.Value.{
  Value, nil, bool, int, text, list, object, Fields, end, field, Map, is_empty,
}
use better_telegram_mcp.Results.{err_result, unknown_action}
use better_telegram_mcp.Programs.{
  done, call, answered, ask, capable, counted, flag, is_unset, none_of, or_true,
}
use better_telegram_mcp.Programs

-- ChatArgs. A number the caller left out is 0, and a text "".
pub record ChatArgs : Type 0 where
  pub action : String
  pub chat_id : Value
  pub title : String
  pub description : String
  pub is_channel : Bool
  pub link_or_hash : String
  pub user_id : ℤ
  pub demote : Bool
  pub limit : ℤ
  pub topic_action : String
  pub topic_id : ℤ
  pub topic_name : String
  pub username : String
  pub query : String
  pub user_ids : List ℤ
  pub message_id : ℤ
  pub unban : Bool
  pub mute : Option Bool
  pub archive : Option Bool
  pub revoke : Bool
  pub seconds : ℤ
  pub permissions : List (String × Bool)
  pub path : String

-- The calls of the backend that the tool makes.
pub data ChatCall : Type 0 where
  list_chats : ℤ → ChatCall
  get_chat_info : Value → ChatCall
  create_chat : String → Bool → ChatCall
  join_chat : String → ChatCall
  leave_chat : Value → ChatCall
  get_members : Value → ℤ → ChatCall
  promote_admin : Value → ℤ → Bool → ChatCall
  full_chat : Value → ChatCall
  mute_chat : Value → Bool → ChatCall
  archive_chat : Value → Bool → ChatCall
  resolve_username : String → ChatCall
  search_directory : String → ℤ → ChatCall
  common_chats : ℤ → ℤ → ChatCall
  readers : Value → ℤ → ChatCall
  get_invite_link : Value → Bool → ChatCall
  invite_to_chat : Value → List ℤ → ChatCall
  ban_user : Value → ℤ → Bool → ChatCall
  set_permissions : Value → List (String × Bool) → ChatCall
  set_slow_mode : Value → ℤ → ChatCall
  list_admins : Value → ℤ → ChatCall
  list_banned : Value → ℤ → ChatCall
  recent_events : Value → ℤ → ChatCall
  set_chat_photo : Value → String → ChatCall
  update_chat_settings : Value → Option String → Option String → ChatCall
  manage_topics : Value → String → ℤ → String → ℤ → ChatCall

abbrev pub ChatAnswer : ChatCall → Type 0
ChatAnswer (list_chats _) = List Map
ChatAnswer (join_chat _) = Bool
ChatAnswer (leave_chat _) = Bool
ChatAnswer (get_members _ _) = List Map
ChatAnswer (promote_admin _ _ _) = Bool
ChatAnswer (mute_chat _ _) = Bool
ChatAnswer (archive_chat _ _) = Bool
ChatAnswer (search_directory _ _) = List Map
ChatAnswer (common_chats _ _) = List Map
ChatAnswer (readers _ _) = List Map
ChatAnswer (ban_user _ _ _) = Bool
ChatAnswer (set_permissions _ _) = Bool
ChatAnswer (set_slow_mode _ _) = Bool
ChatAnswer (list_admins _ _) = List Map
ChatAnswer (list_banned _ _) = List Map
ChatAnswer (recent_events _ _) = List Map
ChatAnswer (set_chat_photo _ _) = Bool
ChatAnswer (update_chat_settings _ _ _) = Bool
ChatAnswer _ = Map

abbrev pub ChatProgram : Type 0
ChatProgram = Programs.Program ChatCall ChatAnswer

abbrev pub is_none : {A : Type 0} → Option A → Bool
is_none none = true
is_none (some a) = false

-- `limit <= 0` is 50
unfoldable pub chat_limit : ChatArgs → ℤ
chat_limit args = if ltb_ℤ (pos 0) args.limit then args.limit else pos 50

-- A pointer to a text that was supplied, or nil
abbrev pub optional : String → Option String
optional s = if str_eq s "" then none else some s

abbrev pub permission_fields : List (String × Bool) → Fields
permission_fields [] = end
permission_fields ((k, b) ∷ ps) = field k (bool b) (permission_fields ps)

-- HandleChat, settings
unfoldable pub chat_settings : ChatArgs → ChatProgram
chat_settings args =
    if is_empty args.chat_id
    then done (err_result "'settings' requires chat_id")
    else if is_none (optional args.title) && is_none (optional args.description)
    then done (err_result "'settings' requires at least one of: title, description")
    else ask (update_chat_settings args.chat_id (optional args.title) (optional args.description))
        (flag "updated")

-- HandleChat, topics
unfoldable pub chat_topics : ChatArgs → ChatProgram
chat_topics args =
    if is_empty args.chat_id
    then done (err_result "'topics' requires chat_id")
    else if str_eq args.topic_action ""
    then done (err_result "'topics' requires topic_action")
    else ask (manage_topics args.chat_id args.topic_action args.topic_id args.topic_name args.limit)
        (λ r. r)

-- HandleChat, list
unfoldable pub chat_list : ChatArgs → ChatProgram
chat_list args = ask (list_chats (chat_limit args)) (counted "chats")

-- HandleChat, info
unfoldable pub chat_info : ChatArgs → ChatProgram
chat_info args =
    if is_empty args.chat_id
    then done (
        err_result
          "'info' requires chat_id. Use positive int (user), negative int (group/supergroup), or @username (public).")
    else ask (get_chat_info args.chat_id) (λ r. r)

-- HandleChat, create
unfoldable pub chat_create : ChatArgs → ChatProgram
chat_create args =
    if str_eq args.title ""
    then done (err_result "'create' requires title")
    else ask (create_chat args.title args.is_channel) (λ r. r)

-- HandleChat, join
unfoldable pub chat_join : ChatArgs → ChatProgram
chat_join args =
    if str_eq args.link_or_hash ""
    then done (err_result "'join' requires link_or_hash")
    else ask (join_chat args.link_or_hash) (flag "joined")

-- HandleChat, leave
unfoldable pub chat_leave : ChatArgs → ChatProgram
chat_leave args =
    if is_empty args.chat_id
    then done (err_result "'leave' requires chat_id")
    else ask (leave_chat args.chat_id) (flag "left")

-- HandleChat, members
unfoldable pub chat_members : ChatArgs → ChatProgram
chat_members args =
    if is_empty args.chat_id
    then done (err_result "'members' requires chat_id")
    else ask (get_members args.chat_id (chat_limit args)) (counted "members")

-- HandleChat, admin
unfoldable pub chat_admin : ChatArgs → ChatProgram
chat_admin args =
    if is_empty args.chat_id || is_unset args.user_id
    then done (err_result "'admin' requires chat_id and user_id")
    else ask (promote_admin args.chat_id args.user_id args.demote)
        (flag (if args.demote then "demoted" else "promoted"))

-- handleChatExtra, full
unfoldable pub chat_full : ChatArgs → ChatProgram
chat_full args =
    if is_empty args.chat_id
    then done (err_result "'full' requires chat_id")
    else ask (full_chat args.chat_id) (λ r. r)

-- handleChatExtra, mute
unfoldable pub chat_mute : ChatArgs → ChatProgram
chat_mute args =
    if is_empty args.chat_id
    then done (err_result "'mute' requires chat_id; pass mute=false to unmute")
    else ask (mute_chat args.chat_id (or_true args.mute))
        (λ changed. ("muted", bool (or_true args.mute && changed)) ∷ ("changed", bool changed) ∷ [])

-- handleChatExtra, archive
unfoldable pub chat_archive : ChatArgs → ChatProgram
chat_archive args =
    if is_empty args.chat_id
    then done (err_result "'archive' requires chat_id; pass archive=false to unarchive")
    else ask (archive_chat args.chat_id (or_true args.archive)) (λ changed.
      ("archived", bool (or_true args.archive && changed)) ∷ ("changed", bool changed) ∷ [])

-- handleChatExtra, resolve
unfoldable pub chat_resolve : ChatArgs → ChatProgram
chat_resolve args =
    if str_eq args.username ""
    then done (err_result "'resolve' requires username")
    else ask (resolve_username args.username) (λ r. r)

-- handleChatExtra, search_public
unfoldable pub chat_search_public : ChatArgs → ChatProgram
chat_search_public args =
    if str_eq args.query ""
    then done (err_result "'search_public' requires query")
    else ask (search_directory args.query args.limit) (counted "results")

-- handleChatExtra, common
unfoldable pub chat_common : ChatArgs → ChatProgram
chat_common args =
    if is_unset args.user_id
    then done (err_result "'common' requires user_id")
    else ask (common_chats args.user_id args.limit) (counted "chats")

-- handleChatExtra, read_by
unfoldable pub chat_read_by : ChatArgs → ChatProgram
chat_read_by args =
    if is_empty args.chat_id || is_unset args.message_id
    then done (err_result "'read_by' requires chat_id and message_id")
    else ask (readers args.chat_id args.message_id) (counted "readers")

-- handleChatExtra, invite_link
unfoldable pub chat_invite_link : ChatArgs → ChatProgram
chat_invite_link args =
    if is_empty args.chat_id
    then done (err_result "'invite_link' requires chat_id")
    else ask (get_invite_link args.chat_id args.revoke) (λ r. r)

-- handleChatExtra, invite
unfoldable pub chat_invite : ChatArgs → ChatProgram
chat_invite args =
    if is_empty args.chat_id || none_of args.user_ids
    then done (err_result "'invite' requires chat_id and user_ids")
    else ask (invite_to_chat args.chat_id args.user_ids) (λ r. r)

-- handleChatExtra, ban
unfoldable pub chat_ban : ChatArgs → ChatProgram
chat_ban args =
    if is_empty args.chat_id || is_unset args.user_id
    then done (err_result "'ban' requires chat_id and user_id; pass unban=true to lift it")
    else ask (ban_user args.chat_id args.user_id args.unban)
        (flag (if args.unban then "unbanned" else "banned"))

-- handleChatExtra, permissions
unfoldable pub chat_permissions : ChatArgs → ChatProgram
chat_permissions args =
    if is_empty args.chat_id || none_of args.permissions
    then done (
        err_result
          "'permissions' requires chat_id and permissions, e.g. {\"send_messages\": true, \"send_media\": false}")
    else ask (set_permissions args.chat_id args.permissions) (λ set.
      ("updated", bool set) ∷ ("permissions", object (permission_fields args.permissions)) ∷ [])

-- handleChatExtra, slow_mode
unfoldable pub chat_slow_mode : ChatArgs → ChatProgram
chat_slow_mode args =
    if is_empty args.chat_id
    then done (err_result "'slow_mode' requires chat_id; seconds=0 turns it off")
    else ask (set_slow_mode args.chat_id args.seconds)
        (λ set. ("updated", bool set) ∷ ("seconds", int args.seconds) ∷ [])

-- handleChatExtra, admins
unfoldable pub chat_admins : ChatArgs → ChatProgram
chat_admins args =
    if is_empty args.chat_id
    then done (err_result "'admins' requires chat_id")
    else ask (list_admins args.chat_id args.limit) (counted "admins")

-- handleChatExtra, banned
unfoldable pub chat_banned : ChatArgs → ChatProgram
chat_banned args =
    if is_empty args.chat_id
    then done (err_result "'banned' requires chat_id")
    else ask (list_banned args.chat_id args.limit) (counted "banned")

-- handleChatExtra, recent_actions
unfoldable pub chat_recent_actions : ChatArgs → ChatProgram
chat_recent_actions args =
    if is_empty args.chat_id
    then done (err_result "'recent_actions' requires chat_id")
    else ask (recent_events args.chat_id args.limit) (counted "events")

-- handleChatExtra, photo
unfoldable pub chat_photo : ChatArgs → ChatProgram
chat_photo args =
    if is_empty args.chat_id
    then done (err_result "'photo' requires chat_id; an empty path removes the picture")
    else ask (set_chat_photo args.chat_id args.path)
        (λ set. ("updated", bool set) ∷ ("removed", bool (str_eq args.path "")) ∷ [])

-- chatActions
abbrev pub chat_actions : List String
chat_actions =
    "list" ∷ "info" ∷ "full" ∷ "create" ∷ "join" ∷ "leave" ∷ "invite" ∷ "members" ∷ "admins"
    ∷ "banned" ∷ "admin" ∷ "ban" ∷ "permissions" ∷ "slow_mode" ∷ "settings" ∷ "photo" ∷ "topics"
    ∷ "mute" ∷ "archive" ∷ "resolve" ∷ "search_public" ∷ "common" ∷ "read_by" ∷ "invite_link"
    ∷ "recent_actions" ∷ []

module _ (lower : String → String) where
  -- the switch of handleChatExtra
  unfoldable pub serve_chat : ChatArgs → ChatProgram
  serve_chat args =
      if str_eq args.action "full"
      then chat_full args
      else if str_eq args.action "mute"
      then chat_mute args
      else if str_eq args.action "archive"
      then chat_archive args
      else if str_eq args.action "resolve"
      then chat_resolve args
      else if str_eq args.action "search_public"
      then chat_search_public args
      else if str_eq args.action "common"
      then chat_common args
      else if str_eq args.action "read_by"
      then chat_read_by args
      else if str_eq args.action "invite_link"
      then chat_invite_link args
      else if str_eq args.action "invite"
      then chat_invite args
      else if str_eq args.action "ban"
      then chat_ban args
      else if str_eq args.action "permissions"
      then chat_permissions args
      else if str_eq args.action "slow_mode"
      then chat_slow_mode args
      else if str_eq args.action "admins"
      then chat_admins args
      else if str_eq args.action "banned"
      then chat_banned args
      else if str_eq args.action "recent_actions"
      then chat_recent_actions args
      else if str_eq args.action "photo"
      then chat_photo args
      else done (unknown_action lower args.action chat_actions)

  -- HandleChat; `extras` says whether the backend has the capability
  unfoldable pub handle_chat : Bool → ChatArgs → ChatProgram
  unfolding serve_chat capable
  handle_chat extras args =
      if str_eq args.action "list"
      then chat_list args
      else if str_eq args.action "info"
      then chat_info args
      else if str_eq args.action "create"
      then chat_create args
      else if str_eq args.action "join"
      then chat_join args
      else if str_eq args.action "leave"
      then chat_leave args
      else if str_eq args.action "members"
      then chat_members args
      else if str_eq args.action "admin"
      then chat_admin args
      else if str_eq args.action "settings"
      then chat_settings args
      else if str_eq args.action "topics"
      then chat_topics args
      else capable lower chat_actions args.action extras (serve_chat args)
