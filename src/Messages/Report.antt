-- ===== src/Messages/Report.antt =====
-- What handleCallbacks of internal/tools/messages.go reports of the updates that it read.
use better_telegram_mcp.Base.{
  ℕ, suc, ◌+◌, ◌≡◌, ap, refl, Bool, true, false, not, ◌&&◌, Option, none, some, List, [], ◌∷◌,
  String, Bool-cases, Option-cases, inl, inr, length, arith, All, length-append,
}
use better_telegram_mcp.Base.Int.{ℤ, pos, ◌≤ℤ◌, ltb_ℤ}
use better_telegram_mcp.Base.Dict
use better_telegram_mcp.Base.Result.{Result, ok, err}
use better_telegram_mcp.Value.{Value, int, text, int64, Map, get, as_int, string_key}
use better_telegram_mcp.Results.{GoError}
use better_telegram_mcp.Programs.{counted}
use better_telegram_mcp.Messages.{
  caller_ids, MessageArgs, Program, is_unset, done, call, get_callback_queries, Call, Answer,
}
use better_telegram_mcp.Programs.Calls.{Ends, Ends-mono}
use better_telegram_mcp.Messages.Callbacks.{
  Progress, is_nil, numeric, advance, is_elsewhere, rejection_reason, normalize_callback, report,
  ask_session, found, is_due, acknowledge, tried, each, entries_of, poll_presses, int_or_nil,
  accept, reject, move,
}

-- The rest of the program once the first read of presses has answered with these updates.
unfoldable pub read_with : List Map → Program → Program
read_with updates (call (get_callback_queries since l consume) next) = next (ok updates)
read_with updates p = p

-- The update's id, if it has one, is not above the cursor.
abbrev IdBelow : Option ℤ → Option ℤ → Type 0
IdBelow none cursor = Unit
IdBelow (some id) none = ⊥
IdBelow (some id) (some c) = id ≤ℤ c

-- The cursor is not below the one before it.
abbrev Since : Option ℤ → Option ℤ → Type 0
Since none c = Unit
Since (some s) none = ⊥
Since (some s) (some c) = s ≤ℤ c

-- Every one of the updates is in one of the two counts, and the cursor is not below since_id nor
-- below any of their ids.
abbrev pub Reports : List Map → Option ℤ → Map → Type 0
Reports updates since r =
    (a : ℕ) × (i : ℕ) × (c : Option ℤ) × (get "count" r ≡ int (pos a))
    × (get "ignored_count" r ≡ int (pos i))
    × (a + i ≡ length updates)
    × (get "cursor" r ≡ int_or_nil c)
    × Since since c
    × All (λ u. IdBelow (as_int (get "update_id" u)) c) updates

report-fields :
    (args : MessageArgs) (p : Progress)
    → (get "count" (report args p) ≡ int (pos (length p.accepted)))
      × (get "ignored_count" (report args p) ≡ int (pos (length p.ignored)))
      × (get "cursor" (report args p) ≡ int_or_nil p.cursor)
unfolding get report counted Dict.insert Dict.lookup
report-fields args p = (refl, refl, refl)

module _ (Q : Map → Type 0) where
  ask_session-Ends :
      (entry : Map) (next : Map → Program)
      → ((e : Map) → Ends Q (next e))
      → Ends Q (ask_session entry next)
  unfolding Ends ask_session
  ask_session-Ends entry next h =
      elim (Bool-cases
        (not (is_nil (get "chat_id" entry)) && not (is_nil (get "message_id" entry)))) [
          | inr b ↦ rw b (h entry)
          | inl b ↦ rw b (elim (Option-cases (as_int (get "message_id" entry))) [
            | inl q ↦ rw q (h entry)
            | inr (id, q) ↦ rw q answer
          ])
        ]
    where
      answer : (a : Result GoError String) → Ends Q (found entry next a)
      answer (ok s) = h _
      answer (err e) = h _

  acknowledge-Ends :
      (args : MessageArgs) (entry : Map) (next : Map → Program)
      → ((e : Map) → Ends Q (next e))
      → Ends Q (acknowledge args entry next)
  unfolding Ends acknowledge
  acknowledge-Ends args entry next h = elim (Bool-cases (is_due args entry)) [
    | inr b ↦ rw b (h entry)
    | inl b ↦ rw b answer
  ]
    where
      answer : (a : Result GoError Bool) → Ends Q (tried entry next a)
      answer (ok s) = h _
      answer (err e) = h _

-- A report of these counts and this cursor.
abbrev Counts : ℕ → Option ℤ → Map → Type 0
Counts n c r =
    (a : ℕ) × (i : ℕ) × (get "count" r ≡ int (pos a))
    × (get "ignored_count" r ≡ int (pos i))
    × (a + i ≡ n)
    × (get "cursor" r ≡ int_or_nil c)

-- The cursor after the entries.
reach : Option ℤ → List Map → Option ℤ
reach c [] = c
reach c (e ∷ es) = reach (advance (as_int (get "update_id" e)) c) es

is_elsewhere-false :
    (args : MessageArgs) (entry : Map)
    → is_unset args.message_id ≡ true
    → is_elsewhere args entry ≡ false
unfolding is_elsewhere
is_elsewhere-false args entry h = rw h refl

report-Counts :
    (args : MessageArgs) (p : Progress) (n : ℕ)
    → length p.accepted + length p.ignored ≡ n
    → Ends {C = Call} {A = Answer} (Counts n p.cursor) (done (report args p))
unfolding Ends
report-Counts args p n e =
    let (count, ignored_count, cursor) = report-fields args p in
    (length p.accepted, length p.ignored, count, ignored_count, e, cursor)

each-Counts :
    (args : MessageArgs) (find : Option (String → String)) (p : Progress) (entries : List Map)
    (n : ℕ)
    → is_unset args.message_id ≡ true
    → length p.accepted + length p.ignored + length entries ≡ n
    → Ends (Counts n (reach p.cursor entries)) (each args find p entries)
unfolding each reach
each-Counts args find p [] n all e = report-Counts args p n (omega (arith, e))
each-Counts args find p (entry ∷ entries) n all e =
    rw (is_elsewhere-false args entry all)
      (elim (Option-cases (rejection_reason entry (caller_ids args.allowed_from_ids) find)) [
        | inr (reason, r) ↦ rw r (
            each-Counts args find (reject (move p entry) entry reason) entries n all (
              ground (
                arith,
                e,
                length-append p.ignored (Dict.insert "reason" (text reason) entry ∷ []),
              )))
        | inl r ↦ rw r (
            acknowledge-Ends _ args entry _ (λ acked. ask_session-Ends _ acked _ (λ en.
              each-Counts args find (accept (move p entry) en) entries n all
                (ground (arith, e, length-append p.accepted (en ∷ []))))))
      ])

advance-Since : (id c : Option ℤ) → Since c (advance id c)
unfolding advance
advance-Since none none = tt
advance-Since none (some c) = omega arith
advance-Since (some id) none = tt
advance-Since (some id) (some c) = elim (Bool-cases (ltb_ℤ c id)) [
  | inl b ↦ rw b (ground (arith, b))
  | inr b ↦ rw b (omega arith)
]

advance-IdBelow : (id c : Option ℤ) → IdBelow id (advance id c)
unfolding advance
advance-IdBelow none c = tt
advance-IdBelow (some id) none = omega arith
advance-IdBelow (some id) (some c) = elim (Bool-cases (ltb_ℤ c id)) [
  | inl b ↦ rw b (omega arith)
  | inr b ↦ rw b (ground (arith, b))
]

Since-trans : (a b c : Option ℤ) → Since a b → Since b c → Since a c
Since-trans none b c h k = tt
Since-trans (some a) none c h k = elim h [ ]
Since-trans (some a) (some b) none h k = elim k [ ]
Since-trans (some a) (some b) (some c) h k = omega (arith, h, k)

IdBelow-trans : (a b c : Option ℤ) → IdBelow a b → Since b c → IdBelow a c
IdBelow-trans none b c h k = tt
IdBelow-trans (some a) none c h k = elim h [ ]
IdBelow-trans (some a) (some b) none h k = elim k [ ]
IdBelow-trans (some a) (some b) (some c) h k = omega (arith, h, k)

reach-Since : (c : Option ℤ) (es : List Map) → Since c (reach c es)
unfolding reach
reach-Since none [] = tt
reach-Since (some c) [] = omega arith
reach-Since c (e ∷ es) =
    Since-trans c _ _ (advance-Since (as_int (get "update_id" e)) c)
      (reach-Since (advance (as_int (get "update_id" e)) c) es)

reach-IdBelow :
    (c : Option ℤ) (es : List Map) → All (λ e. IdBelow (as_int (get "update_id" e)) (reach c es)) es
unfolding reach
reach-IdBelow c [] = tt
reach-IdBelow c (e ∷ es) =
    let c' = advance (as_int (get "update_id" e)) c in
    (
      IdBelow-trans (as_int (get "update_id" e)) c' _
          (advance-IdBelow (as_int (get "update_id" e)) c) (reach-Since c' es),
      reach-IdBelow c' es,
    )

as_int-int64 : (n : ℤ) → as_int (int64 n) ≡ some n
unfolding as_int
as_int-int64 n = refl

-- A normalised id reads as the id it was.
as_int-numeric : (v : Value) → as_int (numeric v) ≡ as_int v
unfolding numeric
as_int-numeric v = elim (Option-cases (as_int v)) [
  | inl h ↦ rw (numeric, h) h
  | inr (n, h) ↦ rw (numeric, h) (as_int-int64 n)
]

module _ (compile : String → Result String (String → String)) (iso : ℤ → String)
    (polled_at : String) where
  get-normalize_callback :
      (u : Map)
      → as_int (get "update_id" (normalize_callback iso u polled_at)) ≡ as_int (get "update_id" u)
  unfolding normalize_callback Dict.lookup get
  get-normalize_callback u = as_int-numeric (get "update_id" u)

  entries_of-IdBelow :
      (c : Option ℤ) (us : List Map)
      → All (λ e. IdBelow (as_int (get "update_id" e)) c) (entries_of compile iso polled_at us)
      → All (λ u. IdBelow (as_int (get "update_id" u)) c) us
  unfolding entries_of
  entries_of-IdBelow c [] h = tt
  entries_of-IdBelow c (u ∷ us) (h, hs) =
      (rw (get-normalize_callback u) at h, entries_of-IdBelow c us hs)

  length-entries_of : (us : List Map) → length (entries_of compile iso polled_at us) ≡ length us
  unfolding entries_of
  length-entries_of [] = refl
  length-entries_of (u ∷ us) = ap suc (length-entries_of us)

  Counts-Reports :
      (us : List Map) (since : Option ℤ) (r : Map)
      → Counts (length us) (reach since (entries_of compile iso polled_at us)) r
      → Reports us since r
  Counts-Reports us since r (a, i, count, ignored_count, e, cursor) =
      let es = entries_of compile iso polled_at us in
      (
        a,
        i,
        reach since es,
        count,
        ignored_count,
        e,
        cursor,
        reach-Since since es,
        entries_of-IdBelow (reach since es) us (reach-IdBelow since es),
      )

  -- When handleCallbacks is after no one message, then whatever updates its read answers with, and
  -- whatever the later calls answer, it ends with a report in which every update is counted as
  -- accepted or as ignored, and whose cursor is not below since_id nor below the id of any of them.
  pub poll_presses-Reports :
      (args : MessageArgs) (find : Option (String → String)) (us : List Map)
      → is_unset args.message_id ≡ true
      → Ends
          (Reports us args.since_id)
          (read_with us (poll_presses compile iso polled_at args find))
  unfolding poll_presses read_with
  poll_presses-Reports args find us all = rw all (
      Ends-mono _ _ _ (Counts-Reports us args.since_id) (
        each-Counts args find (record { accepted = []; ignored = []; cursor = args.since_id })
          (entries_of compile iso polled_at us) (length us) all
          (omega (arith, length-entries_of us))))
