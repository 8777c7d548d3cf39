-- ===== src/Tools/Media/Complete.antt =====
-- Which calls the handlers of internal/tools/media.go can make.
use better_telegram_mcp.Base.{◌≡◌, Bool, false, String, ltb, length, arith}
use better_telegram_mcp.Base.Int.{ℤ}
use better_telegram_mcp.Base.Text.{str_eq}
use better_telegram_mcp.Value.{Value, is_empty}
use better_telegram_mcp.Programs.{is_unset}
use better_telegram_mcp.Programs.Calls.{
  Calls, done-Calls, ask-Calls, case-Calls, refuse-Calls, capable-Calls,
}
use better_telegram_mcp.Tools.Media.{
  MediaArgs, MediaCall, MediaAnswer, media_actions, serve_media, handle_media, download_media,
  album, sticker, gif, get_media_info, list_photos, list_sticker_sets, list_stickers, saved_gifs,
  send_media, media_download, media_send_album, media_send_sticker, media_send_gif, media_info,
  media_photos, media_sticker_sets, media_stickers, media_gifs, media_send,
}

abbrev Given : Value → Type 0
Given chat = is_empty chat ≡ false

abbrev IsNonzero : ℤ → Type 0
IsNonzero id = is_unset id ≡ false

-- What the code has checked of a call: nothing but the chat of a sticker.
abbrev pub Complete : MediaCall → Type 0
Complete (download_media chat id _ _) = Given chat × IsNonzero id
Complete (album chat files _) = Given chat × (ltb (length files) 2 ≡ false)
Complete (sticker chat _ _ _ _) = Given chat
Complete (gif chat document _) = Given chat × IsNonzero document
Complete (get_media_info chat id) = Given chat × IsNonzero id
Complete (list_photos chat _) = Given chat
Complete list_sticker_sets = Unit
Complete (list_stickers set) = str_eq set "" ≡ false
Complete (saved_gifs _) = Unit
Complete (send_media chat kind path caption) = Given chat × (str_eq path "" ≡ false)

media_download-Complete : (args : MediaArgs) → Calls Complete (media_download args)
unfolding media_download
media_download-Complete args =
    refuse-Calls MediaAnswer Complete _ _ _ _ (λ e. (ground (arith, e), ground (arith, e)))

media_send_album-Complete : (args : MediaArgs) → Calls Complete (media_send_album args)
unfolding media_send_album
media_send_album-Complete args =
    refuse-Calls MediaAnswer Complete _ _ _ _ (λ e. (ground (arith, e), ground (arith, e)))

media_send_sticker-Complete : (args : MediaArgs) → Calls Complete (media_send_sticker args)
unfolding media_send_sticker
media_send_sticker-Complete args =
    refuse-Calls MediaAnswer Complete _ _ _ _ (λ e. ground (arith, e))

media_send_gif-Complete : (args : MediaArgs) → Calls Complete (media_send_gif args)
unfolding media_send_gif
media_send_gif-Complete args =
    refuse-Calls MediaAnswer Complete _ _ _ _ (λ e. (ground (arith, e), ground (arith, e)))

media_info-Complete : (args : MediaArgs) → Calls Complete (media_info args)
unfolding media_info
media_info-Complete args =
    refuse-Calls MediaAnswer Complete _ _ _ _ (λ e. (ground (arith, e), ground (arith, e)))

media_photos-Complete : (args : MediaArgs) → Calls Complete (media_photos args)
unfolding media_photos
media_photos-Complete args = refuse-Calls MediaAnswer Complete _ _ _ _ (λ e. ground (arith, e))

media_sticker_sets-Complete : (args : MediaArgs) → Calls Complete (media_sticker_sets args)
unfolding media_sticker_sets
media_sticker_sets-Complete args = ask-Calls MediaAnswer Complete _ _ tt

media_stickers-Complete : (args : MediaArgs) → Calls Complete (media_stickers args)
unfolding media_stickers
media_stickers-Complete args = refuse-Calls MediaAnswer Complete _ _ _ _ (λ e. ground (arith, e))

media_gifs-Complete : (args : MediaArgs) → Calls Complete (media_gifs args)
unfolding media_gifs
media_gifs-Complete args = ask-Calls MediaAnswer Complete _ _ tt

media_send-Complete : (kind : String) (args : MediaArgs) → Calls Complete (media_send kind args)
unfolding media_send
media_send-Complete kind args =
    refuse-Calls MediaAnswer Complete _ _ _ _ (λ e. (ground (arith, e), ground (arith, e)))

serve_media-Complete :
    (lower : String → String) (args : MediaArgs) → Calls Complete (serve_media lower args)
unfolding serve_media
serve_media-Complete lower args =
    case-Calls MediaAnswer Complete _ _ _ (media_send_album-Complete args) (
      case-Calls MediaAnswer Complete _ _ _ (media_send_sticker-Complete args) (
        case-Calls MediaAnswer Complete _ _ _ (media_send_gif-Complete args) (
          case-Calls MediaAnswer Complete _ _ _ (media_info-Complete args) (
            case-Calls MediaAnswer Complete _ _ _ (media_photos-Complete args) (
              case-Calls MediaAnswer Complete _ _ _ (media_sticker_sets-Complete args) (
                case-Calls MediaAnswer Complete _ _ _ (media_stickers-Complete args) (
                  case-Calls MediaAnswer Complete _ _ _ (media_gifs-Complete args)
                    (done-Calls MediaAnswer Complete _))))))))

-- Whatever the arguments and whatever the backend answers, each call that HandleMedia makes has what
-- the code checks before it. A call that names a chat has one that is not empty. Besides that, a
-- download and a look at a message have a message id that is not 0, a GIF a document id that is not
-- 0, an album at least two files, an upload of a photo, file, voice or video a path that is not
-- empty, and the stickers of a set a set that is not empty. A sticker is sent with a chat alone: that
-- it has a file or a set is left to the backend.
pub handle_media-Complete :
    (lower : String → String) (extras : Bool) (args : MediaArgs)
    → Calls Complete (handle_media lower extras args)
unfolding handle_media
handle_media-Complete lower extras args =
    case-Calls MediaAnswer Complete _ _ _ (media_send-Complete "photo" args) (
      case-Calls MediaAnswer Complete _ _ _ (media_send-Complete "document" args) (
        case-Calls MediaAnswer Complete _ _ _ (media_send-Complete "voice" args) (
          case-Calls MediaAnswer Complete _ _ _ (media_send-Complete "video" args) (
            case-Calls MediaAnswer Complete _ _ _ (media_download-Complete args) (
              capable-Calls MediaAnswer Complete lower media_actions args.action extras _
                (serve_media-Complete lower args))))))
