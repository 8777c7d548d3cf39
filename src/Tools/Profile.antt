-- ===== src/Tools/Profile.antt =====
-- internal/tools/profile.go: the `profile` tool.
pub mod Complete
use better_telegram_mcp.Base.{
  ℕ, ◌≡◌, Bool, true, false, not, ◌&&◌, ◌||◌, Option, none, some, List, [], ◌∷◌, String, ltb,
  length, if◌then◌else◌, inl, inr, arith, Bool-cases,
}
use better_telegram_mcp.Base.Int.{ℤ, pos, ltb_ℤ}
use better_telegram_mcp.Base.Text.{str_eq}
use better_telegram_mcp.Value.{
  Value, nil, bool, int, text, list, object, Fields, end, field, Map, is_empty,
}
use better_telegram_mcp.Results.{err_result, unknown_action}
use better_telegram_mcp.Programs.{
  done, call, answered, ask, capable, counted, flag, is_unset, none_of, or_true,
}
use better_telegram_mcp.Programs

-- ProfileArgs. A number the caller left out is 0, and a text "".
pub record ProfileArgs : Type 0 where
  pub action : String
  pub user : Value
  pub first_name : Option String
  pub last_name : Option String
  pub about : Option String
  pub path : String
  pub privacy_key : String
  pub rule : String
  pub limit : ℤ

-- The calls of the backend that the tool makes.
pub data ProfileCall : Type 0 where
  get_me : ProfileCall
  update_profile : Option String → Option String → Option String → ProfileCall
  set_profile_photo : String → ProfileCall
  delete_profile_photo : ProfileCall
  get_user_photos : Value → ℤ → ProfileCall
  get_user_info : Value → ProfileCall
  get_privacy : String → ProfileCall
  set_privacy : String → String → ProfileCall

abbrev pub ProfileAnswer : ProfileCall → Type 0
ProfileAnswer delete_profile_photo = Bool
ProfileAnswer (get_user_photos _ _) = List Map
ProfileAnswer _ = Map

abbrev pub ProfileProgram : Type 0
ProfileProgram = Programs.Program ProfileCall ProfileAnswer

abbrev pub is_none : {A : Type 0} → Option A → Bool
is_none none = true
is_none (some a) = false

-- HandleProfile, me
unfoldable pub profile_me : ProfileArgs → ProfileProgram
profile_me args = ask get_me (λ r. r)

-- HandleProfile, update
unfoldable pub profile_update : ProfileArgs → ProfileProgram
profile_update args =
    if is_none args.first_name && is_none args.last_name && is_none args.about
    then done (err_result "'update' requires at least one of first_name, last_name or about")
    else ask (update_profile args.first_name args.last_name args.about) (λ r. r)

-- HandleProfile, photo_set
unfoldable pub profile_photo_set : ProfileArgs → ProfileProgram
profile_photo_set args =
    if str_eq args.path ""
    then done (err_result "'photo_set' requires path")
    else ask (set_profile_photo args.path) (λ r. r)

-- HandleProfile, photo_delete
unfoldable pub profile_photo_delete : ProfileArgs → ProfileProgram
profile_photo_delete args = ask delete_profile_photo (flag "deleted")

-- HandleProfile, photos
unfoldable pub profile_photos : ProfileArgs → ProfileProgram
profile_photos args = ask (get_user_photos args.user args.limit) (counted "photos")

-- HandleProfile, user
unfoldable pub profile_user : ProfileArgs → ProfileProgram
profile_user args = ask (get_user_info args.user) (λ r. r)

-- HandleProfile, privacy_get
unfoldable pub profile_privacy_get : ProfileArgs → ProfileProgram
profile_privacy_get args =
    if str_eq args.privacy_key ""
    then done (err_result "'privacy_get' requires key")
    else ask (get_privacy args.privacy_key) (λ r. r)

-- HandleProfile, privacy_set
unfoldable pub profile_privacy_set : ProfileArgs → ProfileProgram
profile_privacy_set args =
    if str_eq args.privacy_key "" || str_eq args.rule ""
    then done (err_result "'privacy_set' requires key and rule")
    else ask (set_privacy args.privacy_key args.rule) (λ r. r)

-- profileActions
abbrev pub profile_actions : List String
profile_actions =
    "me" ∷ "photo_delete" ∷ "photo_set" ∷ "photos" ∷ "privacy_get" ∷ "privacy_set" ∷ "update"
    ∷ "user" ∷ []

module _ (lower : String → String) where
  -- the switch of HandleProfile
  unfoldable pub serve_profile : ProfileArgs → ProfileProgram
  serve_profile args =
      if str_eq args.action "me"
      then profile_me args
      else if str_eq args.action "update"
      then profile_update args
      else if str_eq args.action "photo_set"
      then profile_photo_set args
      else if str_eq args.action "photo_delete"
      then profile_photo_delete args
      else if str_eq args.action "photos"
      then profile_photos args
      else if str_eq args.action "user"
      then profile_user args
      else if str_eq args.action "privacy_get"
      then profile_privacy_get args
      else if str_eq args.action "privacy_set"
      then profile_privacy_set args
      else done (unknown_action lower args.action profile_actions)

  -- HandleProfile; `extras` says whether the backend has the capability
  unfoldable pub handle_profile : Bool → ProfileArgs → ProfileProgram
  unfolding serve_profile capable
  handle_profile extras args = capable lower profile_actions args.action extras (serve_profile args)
