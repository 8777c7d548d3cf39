-- ===== src/Bot/Resume/Tests.antt =====
-- Runs of the resume map, and its theorem at a concrete input.
use better_telegram_mcp.Base.{
  ◌≡◌, refl, true, false, Option, none, some, [], ◌∷◌, String, inr, if◌then◌else◌,
}
use better_telegram_mcp.Base.Int.{ℤ, pos}
use better_telegram_mcp.Base.Text.{str_eq, trim_space}
use better_telegram_mcp.Base.Result.{Result, ok}
use better_telegram_mcp.Base.Dict
use better_telegram_mcp.Value.{Value, int, text, Map, get, as_int}
use better_telegram_mcp.Results.{GoError}
use better_telegram_mcp.Bot.Resume.{
  is_session_id, ResumeMap, appended, text_of, record_resume_session, lookup_resume_session,
}
use better_telegram_mcp.Bot.Resume.Lines.{lacks}
use better_telegram_mcp.Bot.Resume.Found.{IsEnded, record_resume_session-lookup_resume_session}

session_shapes :
    (is_session_id "session_01AbCdEfGhIjKl" ≡ true) × (is_session_id "../etc/passwd" ≡ false)
unfolding is_session_id
session_shapes = (refl, refl)

abbrev entry : Map
entry =
    ("chat_id", int (pos 7))
    ∷ ("message_id", int (pos 5))
    ∷ ("session_id", text "cse_0123456789")
    ∷ []

abbrev encode : Value → ℤ → String → Result GoError String
encode chat message session = ok "{\"chat_id\":7}"

abbrev decode : String → Option Map
decode line = if str_eq line "{\"chat_id\":7}" then some entry else none

abbrev sprint : Value → String
sprint v = "7"

abbrev same : String → String
same s = s

-- The map has an earlier registration.
abbrev one_line : ResumeMap
one_line = record { has_path = true; file = some "{\"chat_id\":1}\n" }

record_resume_session-lookup_resume_session_example :
    let m =
      (record_resume_session same encode decode sprint appended true true
        (int (pos 7))
        (pos 5)
        "cse_0123456789"
        one_line).1 in
    (lookup_resume_session same encode decode sprint (int (pos 7)) (pos 5) m ≡ "cse_0123456789")
    × IsEnded (text_of m.file)
unfolding record_resume_session is_session_id lacks trim_space get Dict.lookup as_int
record_resume_session-lookup_resume_session_example =
    record_resume_session-lookup_resume_session same encode decode sprint (int (pos 7)) (pos 5)
      "cse_0123456789" "{\"chat_id\":7}" entry appended true true one_line
      (inr ("{\"chat_id\":1}", refl)) refl (refl, refl, refl, refl, refl, refl) refl
