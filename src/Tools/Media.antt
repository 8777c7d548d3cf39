-- ===== src/Tools/Media.antt =====
-- internal/tools/media.go: the `media` tool.
pub mod Complete
use better_telegram_mcp.Base.{
  ℕ, ◌≡◌, Bool, true, false, not, ◌&&◌, ◌||◌, Option, none, some, List, [], ◌∷◌, String, ltb,
  length, if◌then◌else◌, inl, inr, arith, Bool-cases,
}
use better_telegram_mcp.Base.Int.{ℤ, pos, ltb_ℤ}
use better_telegram_mcp.Base.Text.{str_eq}
use better_telegram_mcp.Value.{
  Value, nil, bool, int, text, list, object, Fields, end, field, Map, is_empty,
}
use better_telegram_mcp.Results.{err_result, unknown_action}
use better_telegram_mcp.Programs.{
  done, call, answered, ask, capable, counted, flag, is_unset, none_of, or_true,
}
use better_telegram_mcp.Programs

-- MediaArgs. A number the caller left out is 0, and a text "".
pub record MediaArgs : Type 0 where
  pub action : String
  pub chat_id : Value
  pub file_path_or_url : String
  pub message_id : ℤ
  pub caption : String
  pub output_dir : String
  pub file_id : String
  pub files : List String
  pub sticker_set : String
  pub emoji : String
  pub index : ℤ
  pub document_id : ℤ
  pub limit : ℤ

-- The calls of the backend that the tool makes.
pub data MediaCall : Type 0 where
  download_media : Value → ℤ → String → String → MediaCall
  album : Value → List String → String → MediaCall
  sticker : Value → String → String → String → ℤ → MediaCall
  gif : Value → ℤ → String → MediaCall
  get_media_info : Value → ℤ → MediaCall
  list_photos : Value → ℤ → MediaCall
  list_sticker_sets : MediaCall
  list_stickers : String → MediaCall
  saved_gifs : ℤ → MediaCall
  send_media : Value → String → String → String → MediaCall

abbrev pub MediaAnswer : MediaCall → Type 0
MediaAnswer (download_media _ _ _ _) = String
MediaAnswer (album _ _ _) = List Map
MediaAnswer (list_photos _ _) = List Map
MediaAnswer list_sticker_sets = List Map
MediaAnswer (list_stickers _) = List Map
MediaAnswer (saved_gifs _) = List Map
MediaAnswer _ = Map

abbrev pub MediaProgram : Type 0
MediaProgram = Programs.Program MediaCall MediaAnswer

-- HandleMedia, the four actions that upload one file of a kind
unfoldable pub media_send : String → MediaArgs → MediaProgram
media_send kind args =
    if is_empty args.chat_id || str_eq args.file_path_or_url ""
    then done (
        err_result (
          Prim.Native.String.◌++◌ "'" (
            Prim.Native.String.◌++◌ args.action
              "' requires chat_id and file_path_or_url. file_path_or_url: local path or HTTP(S) URL. Limits: photo 10MB, file/voice/video 50MB (2GB local in user mode).")))
    else ask (send_media args.chat_id kind args.file_path_or_url args.caption) (λ r. r)

-- HandleMedia, download
unfoldable pub media_download : MediaArgs → MediaProgram
media_download args =
    if is_empty args.chat_id || is_unset args.message_id
    then done (err_result "'download' requires chat_id and message_id")
    else ask (download_media args.chat_id args.message_id args.file_id args.output_dir)
        (λ path. ("path", text path) ∷ [])

-- handleMediaExtra, send_album
unfoldable pub media_send_album : MediaArgs → MediaProgram
media_send_album args =
    if is_empty args.chat_id || ltb (length args.files) 2
    then done (err_result "'send_album' requires chat_id and 2 to 10 files")
    else ask (album args.chat_id args.files args.caption) (counted "messages")

-- handleMediaExtra, send_sticker
unfoldable pub media_send_sticker : MediaArgs → MediaProgram
media_send_sticker args =
    if is_empty args.chat_id
    then done (
        err_result
          "'send_sticker' requires chat_id, and either file_path_or_url (a .webp file) or sticker_set with emoji or index")
    else ask (sticker args.chat_id args.file_path_or_url args.sticker_set args.emoji args.index)
        (λ r. r)

-- handleMediaExtra, send_gif
unfoldable pub media_send_gif : MediaArgs → MediaProgram
media_send_gif args =
    if is_empty args.chat_id || is_unset args.document_id
    then done (err_result "'send_gif' requires chat_id and document_id from the gifs action")
    else ask (gif args.chat_id args.document_id args.caption) (λ r. r)

-- handleMediaExtra, info
unfoldable pub media_info : MediaArgs → MediaProgram
media_info args =
    if is_empty args.chat_id || is_unset args.message_id
    then done (err_result "'info' requires chat_id and message_id")
    else ask (get_media_info args.chat_id args.message_id) (λ r. r)

-- handleMediaExtra, photos
unfoldable pub media_photos : MediaArgs → MediaProgram
media_photos args =
    if is_empty args.chat_id
    then done (err_result "'photos' requires chat_id")
    else ask (list_photos args.chat_id args.limit) (counted "photos")

-- handleMediaExtra, sticker_sets
unfoldable pub media_sticker_sets : MediaArgs → MediaProgram
media_sticker_sets args = ask list_sticker_sets (counted "sets")

-- handleMediaExtra, stickers
unfoldable pub media_stickers : MediaArgs → MediaProgram
media_stickers args =
    if str_eq args.sticker_set ""
    then done (err_result "'stickers' requires sticker_set")
    else ask (list_stickers args.sticker_set) (counted "stickers")

-- handleMediaExtra, gifs
unfoldable pub media_gifs : MediaArgs → MediaProgram
media_gifs args = ask (saved_gifs args.limit) (counted "gifs")

-- mediaActions
abbrev pub media_actions : List String
media_actions =
    "send_photo" ∷ "send_file" ∷ "send_voice" ∷ "send_video" ∷ "send_album" ∷ "send_sticker"
    ∷ "send_gif" ∷ "download" ∷ "info" ∷ "photos" ∷ "sticker_sets" ∷ "stickers" ∷ "gifs" ∷ []

module _ (lower : String → String) where
  -- the switch of handleMediaExtra
  unfoldable pub serve_media : MediaArgs → MediaProgram
  serve_media args =
      if str_eq args.action "send_album"
      then media_send_album args
      else if str_eq args.action "send_sticker"
      then media_send_sticker args
      else if str_eq args.action "send_gif"
      then media_send_gif args
      else if str_eq args.action "info"
      then media_info args
      else if str_eq args.action "photos"
      then media_photos args
      else if str_eq args.action "sticker_sets"
      then media_sticker_sets args
      else if str_eq args.action "stickers"
      then media_stickers args
      else if str_eq args.action "gifs"
      then media_gifs args
      else done (unknown_action lower args.action media_actions)

  -- HandleMedia; `extras` says whether the backend has the capability
  unfoldable pub handle_media : Bool → MediaArgs → MediaProgram
  unfolding serve_media capable
  handle_media extras args =
      if str_eq args.action "send_photo"
      then media_send "photo" args
      else if str_eq args.action "send_file"
      then media_send "document" args
      else if str_eq args.action "send_voice"
      then media_send "voice" args
      else if str_eq args.action "send_video"
      then media_send "video" args
      else if str_eq args.action "download"
      then media_download args
      else capable lower media_actions args.action extras (serve_media args)
