-- ===== src/Tools/Profile/Complete.antt =====
-- Which calls the handlers of internal/tools/profile.go can make.
use better_telegram_mcp.Base.{◌≡◌, Bool, false, ◌&&◌, String, arith}
use better_telegram_mcp.Base.Int.{ℤ}
use better_telegram_mcp.Base.Text.{str_eq}
use better_telegram_mcp.Value.{Value, is_empty}
use better_telegram_mcp.Programs.{is_unset}
use better_telegram_mcp.Programs.Calls.{
  Calls, done-Calls, ask-Calls, case-Calls, refuse-Calls, capable-Calls,
}
use better_telegram_mcp.Tools.Profile.{
  ProfileArgs, ProfileCall, ProfileAnswer, profile_actions, serve_profile, handle_profile, get_me,
  update_profile, set_profile_photo, delete_profile_photo, get_user_photos, get_user_info,
  get_privacy, set_privacy, profile_me, profile_update, profile_photo_set, profile_photo_delete,
  profile_photos, profile_user, profile_privacy_get, profile_privacy_set, is_none,
}

abbrev Given : Value → Type 0
Given chat = is_empty chat ≡ false

abbrev IsNonzero : ℤ → Type 0
IsNonzero id = is_unset id ≡ false

-- What a call must have been given.
abbrev pub Complete : ProfileCall → Type 0
Complete get_me = Unit
Complete (update_profile first last about) = is_none first && is_none last && is_none about ≡ false
Complete (set_profile_photo path) = str_eq path "" ≡ false
Complete delete_profile_photo = Unit
Complete (get_user_photos _ _) = Unit
Complete (get_user_info _) = Unit
Complete (get_privacy setting) = str_eq setting "" ≡ false
Complete (set_privacy setting rule) = (str_eq setting "" ≡ false) × (str_eq rule "" ≡ false)

profile_me-Complete : (args : ProfileArgs) → Calls Complete (profile_me args)
unfolding profile_me
profile_me-Complete args = ask-Calls ProfileAnswer Complete _ _ tt

profile_update-Complete : (args : ProfileArgs) → Calls Complete (profile_update args)
unfolding profile_update
profile_update-Complete args = refuse-Calls ProfileAnswer Complete _ _ _ _ (λ e. ground (arith, e))

profile_photo_set-Complete : (args : ProfileArgs) → Calls Complete (profile_photo_set args)
unfolding profile_photo_set
profile_photo_set-Complete args =
    refuse-Calls ProfileAnswer Complete _ _ _ _ (λ e. ground (arith, e))

profile_photo_delete-Complete : (args : ProfileArgs) → Calls Complete (profile_photo_delete args)
unfolding profile_photo_delete
profile_photo_delete-Complete args = ask-Calls ProfileAnswer Complete _ _ tt

profile_photos-Complete : (args : ProfileArgs) → Calls Complete (profile_photos args)
unfolding profile_photos
profile_photos-Complete args = ask-Calls ProfileAnswer Complete _ _ tt

profile_user-Complete : (args : ProfileArgs) → Calls Complete (profile_user args)
unfolding profile_user
profile_user-Complete args = ask-Calls ProfileAnswer Complete _ _ tt

profile_privacy_get-Complete : (args : ProfileArgs) → Calls Complete (profile_privacy_get args)
unfolding profile_privacy_get
profile_privacy_get-Complete args =
    refuse-Calls ProfileAnswer Complete _ _ _ _ (λ e. ground (arith, e))

profile_privacy_set-Complete : (args : ProfileArgs) → Calls Complete (profile_privacy_set args)
unfolding profile_privacy_set
profile_privacy_set-Complete args =
    refuse-Calls ProfileAnswer Complete _ _ _ _ (λ e. (ground (arith, e), ground (arith, e)))

serve_profile-Complete :
    (lower : String → String) (args : ProfileArgs) → Calls Complete (serve_profile lower args)
unfolding serve_profile
serve_profile-Complete lower args =
    case-Calls ProfileAnswer Complete _ _ _ (profile_me-Complete args) (
      case-Calls ProfileAnswer Complete _ _ _ (profile_update-Complete args) (
        case-Calls ProfileAnswer Complete _ _ _ (profile_photo_set-Complete args) (
          case-Calls ProfileAnswer Complete _ _ _ (profile_photo_delete-Complete args) (
            case-Calls ProfileAnswer Complete _ _ _ (profile_photos-Complete args) (
              case-Calls ProfileAnswer Complete _ _ _ (profile_user-Complete args) (
                case-Calls ProfileAnswer Complete _ _ _ (profile_privacy_get-Complete args) (
                  case-Calls ProfileAnswer Complete _ _ _ (profile_privacy_set-Complete args)
                    (done-Calls ProfileAnswer Complete _))))))))

-- Whatever the arguments and whatever the backend answers, every call that HandleProfile makes has
-- been given what it needs: a path, privacy key or rule that is not empty, and at least one field of the
-- profile to update.
pub handle_profile-Complete :
    (lower : String → String) (extras : Bool) (args : ProfileArgs)
    → Calls Complete (handle_profile lower extras args)
unfolding handle_profile
handle_profile-Complete lower extras args =
    capable-Calls ProfileAnswer Complete lower profile_actions args.action extras _
      (serve_profile-Complete lower args)
