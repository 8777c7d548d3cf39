-- ===== src/Bot/Resume/Found.antt =====
-- What LookupResumeSession of internal/telegram/bot.go finds once RecordResumeSession has written.
use Prim.Native.Char.{code}
use Prim.Native.String.{[] as empty, ◌∷◌ as char, ◌++◌ as join_texts}
use better_telegram_mcp.Base.{
  ℕ, zero, suc, ◌-◌, ◌≤◌, ◌≡◌, ◌⊎◌, Bool-cases, ◌∙◌, inl, inr, refl, ap, sym, Bool, true, false,
  not, ◌||◌, Option, some, List, [], ◌∷◌, ◌++◌, String, leb, length, length-append, drop, All,
  All-append, arith, if◌then◌else◌,
}
use mathlib.Core.List.{append_assoc}
use better_telegram_mcp.Base.Int.{ℤ, eqb_ℤ_iff}
use better_telegram_mcp.Base.Text.{str_eq, trim_space}
use better_telegram_mcp.Base.Result.{Result, ok}
use better_telegram_mcp.Value.{Value, text, Map, get, as_int}
use better_telegram_mcp.Results.{GoError}
use better_telegram_mcp.Config.Senders.{split}
use better_telegram_mcp.Bot.Resume.{
  newline, max_resume_entries, is_session_id, ResumeMap, Append, refused, broken, appended, text_of,
  trim_resume_map, added, record_resume_session, read_line, read_lines, lookup_resume_session,
}
use better_telegram_mcp.Bot.Resume.Lines.{
  join, lacks, split-lacks, split-of_lacks, split-append, split-join, trim_right_char-ended,
  drop-snoc, char-nonempty, nil-append, cons-append, text_assoc,
}

abbrev nl : String
nl = char newline empty

-- A text that is empty or ends with a newline.
abbrev pub IsEnded : String → Type 0
IsEnded raw = (raw ≡ "") ⊎ ((g : String) × (raw ≡ join_texts g (char newline empty)))

abbrev Lack : List String → Type 0
Lack = All (λ t. lacks (code newline) t ≡ true)

-- The lines of a text that goes on after an ended one.
lines_after :
    (raw : String)
    → IsEnded raw
    → (ls : List String) × Lack ls
      × ((s : String) → split (code newline) (join_texts raw s) ≡ ls ++ split (code newline) s)
lines_after raw (inl e) = ([], tt, λ s. rw (e, nil-append s) refl)
lines_after raw (inr (g, e)) = (
  split (code newline) g,
  split-lacks (code newline) g,
  λ s.
      rw (e, text_assoc g nl s, cons-append newline empty s, nil-append s)
        (split-append newline g s),
)

Lack-drop : (k : ℕ) (xs : List String) → Lack xs → Lack (drop k xs)
Lack-drop zero xs h = h
Lack-drop (suc k) [] h = tt
Lack-drop (suc k) (x ∷ xs) (h, hs) = Lack-drop k xs hs

split-join_snoc :
    (xs : List String) (x : String)
    → Lack xs
    → lacks (code newline) x ≡ true
    → split (code newline) (join nl (xs ++ x ∷ [])) ≡ xs ++ x ∷ []
split-join_snoc [] x h hx = split-join newline x [] (hx, tt)
split-join_snoc (y ∷ ys) x (hy, hs) hx =
    split-join newline y (ys ++ x ∷ []) (hy, All-append _ ys (x ∷ []) hs (hx, tt))

nonempty : (line : String) → str_eq (trim_space line) "" ≡ false → str_eq line "" ≡ false
unfolding trim_space
nonempty empty h = absurd (cc)
nonempty (char c s) h = char-nonempty c s

-- A file whose last line is this one.
abbrev EndsWith : String → String → Type 0
EndsWith line raw =
    (ls : List String) × (split (code newline) raw ≡ ls ++ line ∷ "" ∷ []) × IsEnded raw

ended_line :
    (line : String)
    → lacks (code newline) line ≡ true
    → split (code newline) (join_texts line nl) ≡ line ∷ "" ∷ []
unfolding split
ended_line line h = rw (split-append newline line empty, split-of_lacks (code newline) line h) refl

trim_resume_map-EndsWith :
    (reads writes : Bool) (raw line : String)
    → IsEnded raw
    → lacks (code newline) line ≡ true
    → str_eq (trim_space line) "" ≡ false
    → EndsWith line (trim_resume_map reads writes (join_texts raw (join_texts line nl)))
unfolding trim_resume_map split
trim_resume_map-EndsWith reads writes raw line ended h ne =
    let (ls, lack, after) = lines_after raw ended in
    let whole = trim_right_char-ended newline raw line h (nonempty line ne) in
    let kept : split (code newline) (join_texts raw line) ≡ ls ++ line ∷ [] =
      after line ∙ ap (λ (t : List String). ls ++ t) (split-of_lacks (code newline) line h) in
    rw (whole, kept)
      (choose ls lack after
        (not reads || leb (length (ls ++ line ∷ [])) max_resume_entries || not writes))
  where
    choose :
        (ls : List String)
        → Lack ls
        → ((s : String) → split (code newline) (join_texts raw s) ≡ ls ++ split (code newline) s)
        → (b : Bool)
        → EndsWith line (
            if b
            then join_texts raw (join_texts line nl)
            else join_texts
                (join nl (drop (length (ls ++ line ∷ []) - max_resume_entries) (ls ++ line ∷ [])))
                nl)
    choose ls lack after true = (
      ls,
      rw (after (join_texts line nl), ended_line line h) refl,
      inr (join_texts raw line, sym (text_assoc raw line nl)),
    )
    choose ls lack after false =
        let k = length (ls ++ line ∷ []) - max_resume_entries in
        let short : k ≤ length ls = omega (arith, length-append ls (line ∷ [])) in
        let last = drop-snoc k ls line short in
        (
          drop k ls,
          rw
              (
                last,
                split-append newline (join nl (drop k ls ++ line ∷ [])) empty,
                split-join_snoc (drop k ls) line (Lack-drop k ls lack) h,
              )
              (append_assoc (drop k ls) (line ∷ []) (empty ∷ [])),
          inr (_, refl),
        )

module _ (quote : String → String) (encode : Value → ℤ → String → Result GoError String)
    (decode : String → Option Map) (sprint : Value → String) (chat : Value) (message : ℤ)
    (session line : String) (entry : Map) where
  -- The line decodes to an entry whose chat prints as this one, with this message and this session.
  abbrev pub IsEntry : Type 0
  IsEntry =
      (lacks (code newline) line ≡ true)
      × (str_eq (trim_space line) "" ≡ false)
      × (decode (trim_space line) ≡ some entry)
      × (str_eq (sprint (get "chat_id" entry)) (sprint chat) ≡ true)
      × (as_int (get "message_id" entry) ≡ some message)
      × (get "session_id" entry ≡ text session)

  read_lines-append :
      (found : String) (xs ys : List String)
      → read_lines quote encode decode sprint chat message found (xs ++ ys)
        ≡ read_lines quote encode decode sprint chat message
            (read_lines quote encode decode sprint chat message found xs)
            ys
  unfolding read_lines
  read_lines-append found [] ys = refl
  read_lines-append found (x ∷ xs) ys =
      read_lines-append (read_line quote encode decode sprint chat message found x) xs ys

  read_line-entry :
      (found : String)
      → is_session_id session ≡ true
      → IsEntry
      → read_line quote encode decode sprint chat message found line ≡ session
  unfolding read_line
  read_line-entry found good (h, ne, d, c, m, s) =
      let itself = (eqb_ℤ_iff message message).1 refl in rw (ne, d, c, m, s, good, itself) refl

  appended-lookup_resume_session :
      (reads writes : Bool) (m : ResumeMap)
      → is_session_id session ≡ true
      → m.has_path ≡ true
      → IsEnded (text_of m.file)
      → IsEntry
      → let m' = (added quote encode decode sprint appended reads writes line m).1 in
        (lookup_resume_session quote encode decode sprint chat message m' ≡ session)
        × IsEnded (text_of m'.file)
  unfolding added lookup_resume_session trim_space
  appended-lookup_resume_session reads writes m good p ended is =
      let (ls, eq, ended') =
        trim_resume_map-EndsWith reads writes (text_of m.file) line ended is.0 is.1 in
      let before = read_lines quote encode decode sprint chat message "" ls in
      (
        rw (p, eq, read_lines-append "" ls (line ∷ "" ∷ []), read_line-entry before good is) refl,
        ended',
      )

  -- A round trip: on a resume map that is empty or ends with a newline, when RecordResumeSession
  -- reports that it has registered a session, LookupResumeSession of the same chat and message finds
  -- that session, whatever earlier registrations the map holds and whether it is trimmed or not, and
  -- the map ends with a newline again; the line written must decode to an entry with this message and
  -- session whose chat prints as the one asked for.
  pub record_resume_session-lookup_resume_session :
      (io : Append) (reads writes : Bool) (m : ResumeMap)
      → IsEnded (text_of m.file)
      → encode chat message session ≡ ok line
      → IsEntry
      → (record_resume_session quote encode decode sprint io reads writes chat message session m).0
        ≡ ok true
      → let m' =
          (record_resume_session quote encode decode sprint io reads writes chat message session
            m).1 in
        (lookup_resume_session quote encode decode sprint chat message m' ≡ session)
        × IsEnded (text_of m'.file)
  unfolding record_resume_session added
  record_resume_session-lookup_resume_session io reads writes m ended e is h =
      elim (Bool-cases (is_session_id session)) [
        | inr bad ↦ let refusal = rw bad at h in absurd (cc)
        | inl good ↦ elim (Bool-cases m.has_path) [
          | inr bare ↦ let unregistered = rw (good, bare) at h in absurd (cc)
          | inl p ↦
              let success = rw (good, p, e) at h in rw (good, p, e) (written io good p success)
        ]
      ]
    where
      written :
          (io : Append)
          → is_session_id session ≡ true
          → m.has_path ≡ true
          → (added quote encode decode sprint io reads writes line m).0 ≡ ok true
          → let m' = (added quote encode decode sprint io reads writes line m).1 in
            (lookup_resume_session quote encode decode sprint chat message m' ≡ session)
            × IsEnded (text_of m'.file)
      written appended good p h = appended-lookup_resume_session reads writes m good p ended is
      written (refused x) good p h = absurd (cc)
      written (broken x part) good p h = absurd (cc)
