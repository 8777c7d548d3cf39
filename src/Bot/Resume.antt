-- ===== src/Bot/Resume.antt =====
-- internal/telegram/bot.go: RecordResumeSession, trimResumeMap and LookupResumeSession over the file
-- that remembers which session owns the buttons of a message.
pub mod Lines
pub mod Found
mod Tests
use Prim.Native.Char.{Char, code}
use Prim.Native.String.{[] as empty, ◌∷◌ as char, ◌++◌ as join_texts}
use better_telegram_mcp.Base.{
  ℕ, ◌-◌, ◌≡◌, refl, Bool, true, false, not, ◌&&◌, ◌||◌, Option, none, some, List, [], ◌∷◌, ◌++◌,
  String, leb, length, drop, ◌==◌, if◌then◌else◌,
}
use better_telegram_mcp.Base.Int.{ℤ, eqb_ℤ}
use better_telegram_mcp.Base.Text.{str_eq, trim_space, starts_with, all_chars, rune_count}
use better_telegram_mcp.Base.Result.{Result, ok, err}
use better_telegram_mcp.Value.{Value, text, Map, get, as_int}
use better_telegram_mcp.Results.{GoError, errorf}
use better_telegram_mcp.Config.{trim_right_char}
use better_telegram_mcp.Config.Senders.{split}
use better_telegram_mcp.Bot.Resume.Lines.{join}

abbrev pub newline : Char
newline = "\n"

abbrev pub max_resume_entries : ℕ
max_resume_entries = 500

is_alphanumeric : ℕ → Bool
is_alphanumeric c =
    (leb b'A' c && leb c b'Z') || (leb b'a' c && leb c b'z') || (leb b'0' c && leb c b'9')

strip_prefix : String → String → Option String
strip_prefix empty s = some s
strip_prefix (char p ps) empty = none
strip_prefix (char p ps) (char c s) = if code p == code c then strip_prefix ps s else none

is_session_body : Option String → Bool
unfolding is_alphanumeric all_chars rune_count
is_session_body none = false
is_session_body (some s) =
    leb 10 (rune_count s) && leb (rune_count s) 48 && all_chars is_alphanumeric s

-- sessionIDRe.MatchString
unfoldable pub is_session_id : String → Bool
unfolding strip_prefix is_session_body
is_session_id s =
    is_session_body (strip_prefix "session_" s) || is_session_body (strip_prefix "cse_" s)

-- The resume map: whether a file is configured, and its text, where it is there.
pub record ResumeMap : Type 0 where
  pub has_path : Bool
  pub file : Option String

-- How the directory and the file take a new line: not at all, in part, or as a whole.
pub data Append : Type 0 where
  refused : GoError → Append
  broken : GoError → String → Append
  appended : Append

abbrev pub text_of : Option String → String
text_of none = ""
text_of (some s) = s

-- trimResumeMap; `reads` and `writes` say whether the file can be read and written then.
unfoldable pub trim_resume_map : Bool → Bool → String → String
unfolding trim_right_char split join
trim_resume_map reads writes raw =
    let lines = split (code newline) (trim_right_char (code newline) raw) in
    if not reads || leb (length lines) max_resume_entries || not writes
    then raw
    else join_texts (join (char newline empty) (drop (length lines - max_resume_entries) lines))
        (char newline empty)

-- `encode` is json.Marshal of an entry's chat, message and session, `sprint` fmt.Sprint, `quote`
-- its %q, and `decode` json.Unmarshal of a line into an object.
module _ (quote : String → String) (encode : Value → ℤ → String → Result GoError String)
    (decode : String → Option Map) (sprint : Value → String) where
  unfoldable pub added : Append → Bool → Bool → String → ResumeMap → Result GoError Bool × ResumeMap
  unfolding trim_resume_map
  added (refused e) reads writes line m = (err e, m)
  added (broken e part) reads writes line m =
      (err e, record m { file = some (join_texts (text_of m.file) part) })
  added appended reads writes line m = (
    ok true,
    record m {
      file = some (
          trim_resume_map reads writes
            (join_texts (text_of m.file) (join_texts line (char newline empty))));
    },
  )

  -- RecordResumeSession
  unfoldable pub record_resume_session :
      Append → Bool → Bool → Value → ℤ → String → ResumeMap → Result GoError Bool × ResumeMap
  unfolding is_session_id added
  record_resume_session io reads writes chat_id message_id session_id m =
      if not (is_session_id session_id)
      then (
        err (
            errorf (
              join_texts "resume_session must be a Claude session id like 'session_01AbCd...', got "
                (quote session_id))),
        m,
      )
      else if not m.has_path
      then (ok false, m)
      else elim (encode chat_id message_id session_id) [
        | err e ↦ (err e, m)
        | ok line ↦ added io reads writes line m
      ]

  -- `id, ok := asInt(entry["message_id"]); !ok || id != messageID`
  abbrev is_other_message : ℤ → Option ℤ → Bool
  is_other_message wanted none = true
  is_other_message wanted (some id) = not (eqb_ℤ id wanted)

  -- the session of an entry, if it has one that may be handed on
  abbrev session_or : String → Value → String
  session_or found (text session) = if is_session_id session then session else found
  session_or found v = found

  -- One line of the map, with what the lines before it gave.
  unfoldable pub read_line : Value → ℤ → String → String → String
  unfolding is_session_id
  read_line chat_id message_id found raw =
      if str_eq (trim_space raw) "" then found else elim (decode (trim_space raw)) [
        | none ↦ found
        | some entry ↦
            if not (str_eq (sprint (get "chat_id" entry)) (sprint chat_id))
              || is_other_message message_id (as_int (get "message_id" entry))
            then found
            else session_or found (get "session_id" entry)
      ]

  unfoldable pub read_lines : Value → ℤ → String → List String → String
  unfolding read_line
  read_lines chat_id message_id found [] = found
  read_lines chat_id message_id found (raw ∷ rest) =
      read_lines chat_id message_id (read_line chat_id message_id found raw) rest

  -- LookupResumeSession
  unfoldable pub lookup_resume_session : Value → ℤ → ResumeMap → String
  unfolding read_lines split
  lookup_resume_session chat_id message_id m = if not m.has_path then "" else elim m.file [
    | none ↦ ""
    | some raw ↦ read_lines chat_id message_id "" (split (code newline) raw)
  ]
