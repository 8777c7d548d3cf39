-- ===== src/Server/Calls.antt =====
-- internal/server/server.go: connectStatus, ready, and the functions that registerTools gives for the
-- tools that answer with text of other Telegram users. X is the state behind the backend.
use better_telegram_mcp.Base.{
  Bool, true, false, ◌&&◌, Option, none, some, List, String, if◌then◌else◌,
}
use better_telegram_mcp.Base.Int.{ℤ}
use better_telegram_mcp.Base.Text.{str_eq}
use better_telegram_mcp.Base.Result.{Result, ok, err}
use better_telegram_mcp.Value.{Map}
use better_telegram_mcp.Results.{GoError, err_result}
use better_telegram_mcp.Config.{Settings}
use better_telegram_mcp.Programs.{Program, run}
use better_telegram_mcp.Messages.{MessageArgs, Call, Answer}
use better_telegram_mcp.Messages.Dispatch.{Env, handle_message}
use better_telegram_mcp.Tools.Chats.{ChatArgs, ChatCall, ChatAnswer, handle_chat}
use better_telegram_mcp.Tools.Media.{MediaArgs, MediaCall, MediaAnswer, handle_media}
use better_telegram_mcp.Tools.Contacts.{ContactArgs, ContactCall, ContactAnswer, handle_contact}
use better_telegram_mcp.Tools.Profile.{ProfileArgs, ProfileCall, ProfileAnswer, handle_profile}
use better_telegram_mcp.Tools.Filing.{FolderArgs, FolderCall, FolderAnswer, handle_folder}
use better_telegram_mcp.Tools.Setup.{not_ready}
use better_telegram_mcp.Server.{Server, Backend, bot_backend, user_backend}
use better_telegram_mcp.Server.Marking.{CallResult, external}

abbrev append : String → String → String
append = Prim.Native.String.◌++◌

-- connectStatus
unfoldable pub connect_status : Server → String
connect_status s = elim s.conn_err [
  | some e ↦
      if s.connecting
      then append "Still connecting to Telegram. The last attempt failed: "
          (append e.message ". The server keeps retrying, so try again in a moment.")
      else append "Not connected to Telegram: " e.message
  | none ↦
      if s.connecting && s.configured
      then "Still connecting to Telegram; try again in a moment."
      else ""
]

-- What ready answers while there is no backend.
unfoldable pub absent_answer : Server → Map
unfolding connect_status
absent_answer s =
    if str_eq (connect_status s) "" then not_ready s.configured else err_result (connect_status s)

-- ready: the backend, or the result to return
unfoldable pub ready : Server → Result Map Backend
unfolding absent_answer
ready s = elim s.backend [
  | none ↦ err (absent_answer s)
  | some b ↦ if s.pending_auth then err (not_ready s.configured) else ok b
]

-- Whether the backend is a ProfileBackend and a FolderBackend; both backends have the extras of the
-- other tools.
abbrev pub is_user_backend : Backend → Bool
is_user_backend (bot_backend token options) = false
is_user_backend (user_backend options) = true

-- `args.AllowedFromIDs == nil`
abbrev pub or_settings : List ℤ → Option (List ℤ) → Option (List ℤ)
or_settings senders none = some senders
or_settings senders (some ids) = some ids

-- The guardrails of the operator, unless the call overrides them.
unfoldable pub guarded : Settings → MessageArgs → MessageArgs
guarded settings args =
    if str_eq args.action "callbacks"
    then record args {
      allowed_from_ids = or_settings settings.allowed_callback_senders args.allowed_from_ids;
      data_pattern =
          if str_eq args.data_pattern "" then settings.callback_data_pattern else args.data_pattern;
    }
    else args

module _ (encode : Map → String) {X : Type 0} where
  module _ {C : Type 0} {A : C → Type 0}
      (perform : Backend → (c : C) → X → Result GoError (A c) × X) where
    -- The result of a tool and the state after it: the handler runs on the backend that is ready.
    unfoldable pub answer_call :
        String → (Backend → Program C A) → Result Map Backend → X → CallResult × X
    answer_call name handle (err refusal) x = (external encode name refusal, x)
    answer_call name handle (ok b) x =
        let (payload, y) = run (perform b) (handle b) x in (external encode name payload, y)

  -- The function of the `message` tool
  unfoldable pub message_tool :
      Env
      → (Backend → (c : Call) → X → Result GoError (Answer c) × X)
      → Server
      → MessageArgs
      → X
      → CallResult × X
  unfolding answer_call ready guarded
  message_tool env perform s args =
      answer_call perform "message" (λ b. handle_message env true (guarded s.settings args))
        (ready s)

  -- The function of the `chat` tool
  unfoldable pub chat_tool :
      (String → String)
      → (Backend → (c : ChatCall) → X → Result GoError (ChatAnswer c) × X)
      → Server
      → ChatArgs
      → X
      → CallResult × X
  unfolding answer_call ready
  chat_tool lower perform s args =
      answer_call perform "chat" (λ b. handle_chat lower true args) (ready s)

  -- The function of the `media` tool
  unfoldable pub media_tool :
      (String → String)
      → (Backend → (c : MediaCall) → X → Result GoError (MediaAnswer c) × X)
      → Server
      → MediaArgs
      → X
      → CallResult × X
  unfolding answer_call ready
  media_tool lower perform s args =
      answer_call perform "media" (λ b. handle_media lower true args) (ready s)

  -- The function of the `contact` tool
  unfoldable pub contact_tool :
      (String → String)
      → (String → String)
      → (Backend → (c : ContactCall) → X → Result GoError (ContactAnswer c) × X)
      → Server
      → ContactArgs
      → X
      → CallResult × X
  unfolding answer_call ready
  contact_tool nfc lower perform s args =
      answer_call perform "contact" (λ b. handle_contact nfc lower true args) (ready s)

  -- The function of the `profile` tool
  unfoldable pub profile_tool :
      (String → String)
      → (Backend → (c : ProfileCall) → X → Result GoError (ProfileAnswer c) × X)
      → Server
      → ProfileArgs
      → X
      → CallResult × X
  unfolding answer_call ready
  profile_tool lower perform s args =
      answer_call perform "profile" (λ b. handle_profile lower (is_user_backend b) args) (ready s)

  -- The function of the `folder` tool
  unfoldable pub folder_tool :
      (String → String)
      → (Backend → (c : FolderCall) → X → Result GoError (FolderAnswer c) × X)
      → Server
      → FolderArgs
      → X
      → CallResult × X
  unfolding answer_call ready
  folder_tool lower perform s args =
      answer_call perform "folder" (λ b. handle_folder lower (is_user_backend b) args) (ready s)
