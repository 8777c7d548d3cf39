-- ===== src/Messages/Presses.antt =====
-- What handleCallbacks of internal/tools/messages.go asks of the backend, and what it reports.
use better_telegram_mcp.Base.{
  ◌≡◌, ◌⊎◌, refl, All, Bool, true, false, not, ◌&&◌, ◌||◌, Option, none, some, List, [], ◌∷◌,
  String, Bool-cases, Option-cases, inl, inr, ltb, arith,
}
use better_telegram_mcp.Base.Int.{ℤ, pos}
use better_telegram_mcp.Base.Text.{str_eq, rune_count}
use better_telegram_mcp.Base.Dict
use better_telegram_mcp.Base.Result.{Result, ok, err}
use better_telegram_mcp.Value.{Map, get, as_int, string_key}
use better_telegram_mcp.Results.{GoError, err_result}
use better_telegram_mcp.Messages.{
  Answer, answered, call, limit_or, caller_ids, MessageArgs, Call, Program, is_unset, or_true,
  get_callback_queries, answer_callback_query, lookup_resume_session, done,
}
use better_telegram_mcp.Programs.Calls.{Calls, done-Calls}
use better_telegram_mcp.Messages.Callbacks.{
  Progress, as_map, normalize_callback, entries_of, as_text, is_nil, is_elsewhere, rejection_reason,
  ask_session, found, is_due, acknowledge, tried, each, poll_presses, handle_callbacks, accept,
  reject, move,
}

-- The id of the press that an update brings.
abbrev pub press_id : Map → Option String
press_id update = as_text (get "id" (as_map (get "callback_query" update)))

-- One of the updates brings the press with this id.
abbrev pub Brings : String → List Map → Type 0
Brings query [] = ⊥
Brings query (u ∷ us) = (press_id u ≡ some query) ⊎ Brings query us

-- The read that handleCallbacks may make: with the caller's since_id, consuming exactly when it is no
-- peek, and never while it is after one message's presses.
abbrev pub MayRead : MessageArgs → Call → Type 0
MayRead args (get_callback_queries since l consume) =
    (since ≡ args.since_id)
    × (consume ≡ not args.peek)
    × (is_unset args.message_id || not consume ≡ true)
MayRead args c = ⊥

-- The calls that it may make once the read has answered with these updates: an acknowledgement of one
-- of their presses, by its id, never on a peek or with auto_answer off, with the caller's text of at
-- most 200 characters; and the session behind a known chat. There is no other read.
abbrev pub MayFollow : MessageArgs → List Map → Call → Type 0
MayFollow args updates (answer_callback_query query content alert) =
    (args.peek ≡ false)
    × (or_true args.auto_answer ≡ true)
    × Brings query updates
    × (str_eq query "" ≡ false)
    × (content ≡ args.answer_text)
    × (alert ≡ args.show_alert)
    × (ltb 200 (rune_count content) ≡ false)
MayFollow args updates (lookup_resume_session chat id) = is_nil chat ≡ false
MayFollow args updates c = ⊥

-- The calls that may follow the answer to a first call: none but after a read that has answered.
abbrev pub Follows : MessageArgs → (c : Call) → Result GoError (Answer c) → Call → Type 0
Follows args (get_callback_queries since l consume) (ok updates) = MayFollow args updates
Follows args c a = λ d. ⊥

-- A program that ends at once, or makes one read that it may make, and then only calls that may
-- follow what the read has answered: none after an error.
abbrev pub Allowed : MessageArgs → Program → Type 0
Allowed args (done result) = Unit
Allowed args (call c next) =
    MayRead args c × ((a : Result GoError (Answer c)) → Calls (Follows args c a) (next a))

-- An entry of the loop that, if it has a press id, has that of one of the updates.
abbrev Known : List Map → Map → Type 0
Known updates entry =
    (query : String) → as_text (get "callback_query_id" entry) ≡ some query → Brings query updates

-- An entry that is not rejected has a press id, which is not empty.
rejection_reason-query :
    (entry : Map) (allowed : List ℤ) (find : Option (String → String))
    → rejection_reason entry allowed find ≡ none
    → (query : String) × (as_text (get "callback_query_id" entry) ≡ some query)
      × (str_eq query "" ≡ false)
unfolding rejection_reason
rejection_reason-query entry allowed find h =
    elim (Option-cases (as_text (get "callback_query_id" entry))) [
      | inl q ↦ let malformed = rw (rejection_reason, q) at h in absurd (cc)
      | inr (query, q) ↦ elim (Bool-cases (str_eq query "")) [
        | inl b ↦ let malformed = rw (rejection_reason, q, b) at h in absurd (cc)
        | inr b ↦ (query, q, b)
      ]
    ]

ask_session-Calls :
    (args : MessageArgs) (updates : List Map) (entry : Map) (next : Map → Program)
    → ((e : Map) → Calls (MayFollow args updates) (next e))
    → Calls (MayFollow args updates) (ask_session entry next)
unfolding Calls ask_session
ask_session-Calls args updates entry next h =
    elim (Bool-cases
      (not (is_nil (get "chat_id" entry)) && not (is_nil (get "message_id" entry)))) [
        | inr b ↦ rw b (h entry)
        | inl b ↦ rw b (elim (Option-cases (as_int (get "message_id" entry))) [
          | inl q ↦ rw q (h entry)
          | inr (id, q) ↦ rw q (ground (arith, b), answer)
        ])
      ]
  where
    answer : (a : Result GoError String) → Calls (MayFollow args updates) (found entry next a)
    answer (ok s) = h _
    answer (err e) = h _

is_due-true :
    (args : MessageArgs) (entry : Map)
    → is_due args entry ≡ true
    → (args.peek ≡ false) × (or_true args.auto_answer ≡ true)
unfolding is_due
is_due-true args entry h = (ground (arith, h), ground (arith, h))

acknowledge-Calls :
    (args : MessageArgs) (updates : List Map) (entry : Map) (next : Map → Program) (query : String)
    → ltb 200 (rune_count args.answer_text) ≡ false
    → as_text (get "callback_query_id" entry) ≡ some query
    → str_eq query "" ≡ false
    → Brings query updates
    → ((e : Map) → Calls (MayFollow args updates) (next e))
    → Calls (MayFollow args updates) (acknowledge args entry next)
unfolding Calls acknowledge
acknowledge-Calls args updates entry next query short q ne from h =
    elim (Bool-cases (is_due args entry)) [
      | inr b ↦ rw b (h entry)
      | inl b ↦
          let (reads, automatic) = is_due-true args entry b in
          rw (b, q) ((reads, automatic, from, ne, refl, refl, short), answer)
    ]
  where
    answer : (a : Result GoError Bool) → Calls (MayFollow args updates) (tried entry next a)
    answer (ok s) = h _
    answer (err e) = h _

each-Calls :
    (args : MessageArgs) (updates : List Map) (find : Option (String → String)) (p : Progress)
    (entries : List Map)
    → ltb 200 (rune_count args.answer_text) ≡ false
    → All (Known updates) entries
    → Calls (MayFollow args updates) (each args find p entries)
unfolding each
each-Calls args updates find p [] short known = done-Calls Answer (MayFollow args updates) _
each-Calls args updates find p (entry ∷ entries) short (k, ks) =
    elim (Bool-cases (is_elsewhere args entry)) [
      | inl b ↦ rw b (each-Calls args updates find (move p entry) entries short ks)
      | inr b ↦
          rw b
            (elim (Option-cases (rejection_reason entry (caller_ids args.allowed_from_ids) find)) [
              | inr (reason, r) ↦ rw r (
                  each-Calls args updates find (reject (move p entry) entry reason) entries short
                    ks)
              | inl r ↦
                  let (query, q, ne) =
                    rejection_reason-query entry (caller_ids args.allowed_from_ids) find r in
                  rw r (
                    acknowledge-Calls args updates entry _ query short q ne (k query q) (λ acked.
                      ask_session-Calls args updates acked _ (λ e.
                        each-Calls args updates find (accept (move p entry) e) entries short ks)))
            ])
    ]

module _ (compile : String → Result String (String → String)) (iso : ℤ → String)
    (polled_at : String) where
  get-normalize_callback :
      (u : Map)
      → get "callback_query_id" (normalize_callback iso u polled_at)
        ≡ get "id" (as_map (get "callback_query" u))
  unfolding normalize_callback get Dict.lookup
  get-normalize_callback u = refl

  entries_of-Known :
      (us updates : List Map)
      → ((query : String) → Brings query us → Brings query updates)
      → All (Known updates) (entries_of compile iso polled_at us)
  unfolding entries_of
  entries_of-Known [] updates h = tt
  entries_of-Known (u ∷ us) updates h = (
    λ query q. h query (inl (rw (get-normalize_callback u) at q)),
    entries_of-Known us updates (λ query b. h query (inr b)),
  )

  poll_presses-Allowed :
      (args : MessageArgs) (find : Option (String → String))
      → ltb 200 (rune_count args.answer_text) ≡ false
      → Allowed args (poll_presses compile iso polled_at args find)
  unfolding poll_presses
  poll_presses-Allowed args find h =
      elim (Bool-cases (not (is_unset args.message_id) && not args.peek)) [
        | inl b ↦ rw b tt
        | inr b ↦ rw b ((refl, refl, ground (arith, b)), after)
      ]
    where
      after :
          (a : Result GoError (List Map))
          → Calls
              (Follows args
                (get_callback_queries args.since_id (limit_or (pos 20) args) (not args.peek))
                a)
              (answered
                (λ updates.
                  each args find
                    (record { accepted = []; ignored = []; cursor = args.since_id })
                    (entries_of compile iso polled_at updates))
                a)
      after (err e) = done-Calls Answer _ _
      after (ok updates) =
          each-Calls args updates find _ _ h (entries_of-Known updates updates (λ query b. b))

  -- handleCallbacks ends without a call, or first makes one read of the presses, which has the
  -- caller's since_id, consumes exactly when it is no peek, and consumes nothing while it is after one
  -- message's presses. There is no second read. After a read that failed it makes no call; after one
  -- that answered with updates it only acknowledges presses of these updates, by their ids, never on
  -- a peek or with auto_answer off, and with the caller's text of at most 200 characters, and looks up
  -- the session behind a known chat.
  pub handle_callbacks-Allowed :
      (args : MessageArgs) → Allowed args (handle_callbacks compile iso polled_at args)
  unfolding handle_callbacks
  handle_callbacks-Allowed args = elim (Bool-cases (ltb 200 (rune_count args.answer_text))) [
    | inl h ↦ rw h tt
    | inr h ↦ rw h (elim (Bool-cases (str_eq args.data_pattern "")) [
      | inl d ↦ rw d (poll_presses-Allowed args none h)
      | inr d ↦ rw d (compiled h (compile args.data_pattern))
    ])
  ]
    where
      compiled :
          ltb 200 (rune_count args.answer_text) ≡ false
          → (r : Result String (String → String))
          → Allowed args (elim r [
            | err e ↦ done (err_result (Prim.Native.String.◌++◌ "Invalid data_pattern regex: " e))
            | ok find ↦ poll_presses compile iso polled_at args (some find)
          ])
      compiled h (err e) = tt
      compiled h (ok find) = poll_presses-Allowed args (some find) h
