-- ===== src/Tools/Tests.antt =====
-- Theorems on the tools at concrete inputs.
use better_telegram_mcp.Base.{none, some, [], ◌∷◌, true, false, ◌≡◌, refl}
use better_telegram_mcp.Base.Int.{pos}
use better_telegram_mcp.Value.{nil, text}
use better_telegram_mcp.Programs.Calls.{Calls}
use better_telegram_mcp.Tools.Chats.{ChatArgs, handle_chat}
use better_telegram_mcp.Tools.Chats.Complete.{Complete as ChatComplete, handle_chat-Complete}
use better_telegram_mcp.Tools.Media.{MediaArgs, handle_media}
use better_telegram_mcp.Tools.Media.Complete.{Complete as MediaComplete, handle_media-Complete}
use better_telegram_mcp.Tools.Contacts.{ContactArgs, handle_contact}
use better_telegram_mcp.Tools.Contacts.Complete.{
  Complete as ContactComplete, handle_contact-Complete,
}
use better_telegram_mcp.Base.Result.{ok}
use better_telegram_mcp.Base.Text.{trim_space, trim_prefix_char}
use better_telegram_mcp.Base.Dict
use better_telegram_mcp.Value.{int, Map, as_int, get, is_empty}
use better_telegram_mcp.Aliases.{
  AliasStore, absent, lookup_alias, key, load, load_file, save, write, reserved, is_handle,
}
use better_telegram_mcp.Tools.Contacts.{contact_alias_set, alias_found, alias_name}
use better_telegram_mcp.Tools.Contacts.Aliasing.{run, contact_alias_set-lookup_alias}
use better_telegram_mcp.Tools.Filing.{FolderArgs, handle_folder}
use better_telegram_mcp.Tools.Filing.Complete.{Complete as FolderComplete, handle_folder-Complete}
use better_telegram_mcp.Tools.Profile.{ProfileArgs, handle_profile}
use better_telegram_mcp.Tools.Profile.Complete.{
  Complete as ProfileComplete, handle_profile-Complete,
}

abbrev chat_args : ChatArgs
chat_args = record {
  action = "ban";
  chat_id = text "@a";
  title = "";
  description = "";
  is_channel = false;
  link_or_hash = "";
  user_id = pos 3;
  demote = false;
  limit = pos 0;
  topic_action = "";
  topic_id = pos 0;
  topic_name = "";
  username = "";
  query = "";
  user_ids = [];
  message_id = pos 0;
  unban = false;
  mute = none;
  archive = none;
  revoke = false;
  seconds = pos 0;
  permissions = [];
  path = "";
}

handle_chat-Complete_example : Calls ChatComplete (handle_chat (λ s. s) true chat_args)
handle_chat-Complete_example = handle_chat-Complete (λ s. s) true chat_args

abbrev media_args : MediaArgs
media_args = record {
  action = "send_gif";
  chat_id = text "@a";
  file_path_or_url = "";
  message_id = pos 0;
  caption = "";
  output_dir = "";
  file_id = "";
  files = [];
  sticker_set = "";
  emoji = "";
  index = pos 0;
  document_id = pos 3;
  limit = pos 0;
}

handle_media-Complete_example : Calls MediaComplete (handle_media (λ s. s) true media_args)
handle_media-Complete_example = handle_media-Complete (λ s. s) true media_args

abbrev contact_args : ContactArgs
contact_args = record {
  action = "alias_set";
  query = "";
  phone = "";
  first_name = "";
  last_name = "";
  user_id = pos 0;
  unblock = false;
  limit = pos 0;
  chat_id = text "@a";
  contacts = [];
  alias = "мама";
  replace = false;
}

handle_contact-Complete_example :
    Calls ContactComplete (handle_contact (λ s. s) (λ s. s) true contact_args)
handle_contact-Complete_example = handle_contact-Complete (λ s. s) (λ s. s) true contact_args

abbrev folder_args : FolderArgs
folder_args = record {
  action = "delete";
  folder_id = pos 2;
  title = "";
  chat_id = nil;
  chats = [];
  order = [];
}

handle_folder-Complete_example : Calls FolderComplete (handle_folder (λ s. s) true folder_args)
handle_folder-Complete_example = handle_folder-Complete (λ s. s) true folder_args

abbrev profile_args : ProfileArgs
profile_args = record {
  action = "photo_set";
  user = nil;
  first_name = none;
  last_name = none;
  about = none;
  path = "/tmp/a.png";
  privacy_key = "";
  rule = "";
  limit = pos 0;
}

handle_profile-Complete_example : Calls ProfileComplete (handle_profile (λ s. s) true profile_args)
handle_profile-Complete_example = handle_profile-Complete (λ s. s) true profile_args

abbrev ada : Map
ada = ("id", int (pos 5)) ∷ ("first_name", text "Ada") ∷ []

abbrev no_aliases : AliasStore
no_aliases = record { has_path = true; file = absent }

contact_alias_set-lookup_alias_example :
    lookup_alias
      (λ s. s)
      (λ s. s)
      "мама"
      (run
        (λ s. s)
        (λ s. s)
        (λ c. ok ada)
        (contact_alias_set (λ s. s) (λ s. s) contact_args)
        no_aliases).1
    ≡ some (record { id = pos 5; name = alias_name ada })
unfolding key load load_file trim_space trim_prefix_char run contact_alias_set alias_found save
    write reserved is_handle get Dict.lookup Dict.insert is_empty as_int
contact_alias_set-lookup_alias_example =
    contact_alias_set-lookup_alias (λ s. s) (λ s. s) (λ c. ok ada) contact_args ada no_aliases
      (pos 5) refl refl tt refl refl
