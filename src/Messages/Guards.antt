-- ===== src/Messages/Guards.antt =====
-- Whose presses handleCallbacks of internal/tools/messages.go hands over.
use better_telegram_mcp.Base.{
  ◌≡◌, ◌⊎◌, ◌∙◌, refl, ap, Bool, true, false, not, ◌&&◌, Option, none, some, List, [], ◌∷◌, String,
  Bool-cases, Option-cases, inl, inr, ltb, arith, All, All-append,
}
use better_telegram_mcp.Base.Int.{ℤ}
use better_telegram_mcp.Base.Text.{str_eq, rune_count}
use better_telegram_mcp.Base.Dict
use better_telegram_mcp.Base.Dict.{lookup-insert}
use better_telegram_mcp.Base.Result.{Result, ok, err}
use better_telegram_mcp.Value.{Value, nil, bool, list, Map, get, as_int, string_key}
use better_telegram_mcp.Results.{GoError, err_result, safe_error}
use better_telegram_mcp.Programs.{to_items, counted}
use better_telegram_mcp.Programs.Calls.{Ends, Ends-mono}
use better_telegram_mcp.Messages.{
  caller_ids, MessageArgs, Program, is_unset, none_of, answered, done,
}
use better_telegram_mcp.Messages.Callbacks.{
  Progress, is_nil, is_stranger, is_elsewhere, rejection_reason, report, ask_session, found, is_due,
  acknowledge, tried, each, entries_of, poll_presses, handle_callbacks, accept, reject, move,
}

-- The sender of the press is one of the callers, where any are named.
abbrev pub FromCaller : List ℤ → Map → Type 0
FromCaller allowed entry =
    (not (none_of allowed) && is_stranger allowed (as_int (get "from_id" entry))) ≡ false

-- The presses of a result are all from callers.
abbrev pub OnlyCallers : List ℤ → Map → Type 0
OnlyCallers allowed result =
    (presses : List Map) × (get "callbacks" result ≡ list (to_items presses))
    × All (FromCaller allowed) presses

get-insert :
    (key other : String) (v : Value) (m : Map)
    → str_eq other key ≡ false
    → get key (Dict.insert other v m) ≡ get key m
unfolding get
get-insert key other v m h =
    let found : Dict.lookup key (Dict.insert other v m) ≡ Dict.lookup key m =
      lookup-insert other key v m ∙ (rw h refl) in
    ap (λ (o : Option Value). elim o [ none ↦ nil | some w ↦ w ]) found

rejection_reason-FromCaller :
    (entry : Map) (allowed : List ℤ) (find : Option (String → String))
    → rejection_reason entry allowed find ≡ none
    → FromCaller allowed entry
unfolding rejection_reason
rejection_reason-FromCaller entry allowed find h = ground (arith, h)

-- Results of a program that goes on with an entry that has the sender of this one.
module _ (Q : Map → Type 0) (entry : Map) (next : Map → Program)
    (goes_on : (e : Map) → get "from_id" e ≡ get "from_id" entry → Ends Q (next e)) where
  tried-Ends : (a : Result GoError Bool) → Ends Q (tried entry next a)
  tried-Ends (err e) = goes_on entry refl
  tried-Ends (ok b) = goes_on _ (get-insert "from_id" "answered" (bool true) entry refl)

  acknowledge-Ends : (args : MessageArgs) → Ends Q (acknowledge args entry next)
  unfolding Ends acknowledge
  acknowledge-Ends args = elim (Bool-cases (is_due args entry)) [
    | inl b ↦ rw b tried-Ends
    | inr b ↦ rw b (goes_on entry refl)
  ]

  found-Ends : (a : Result GoError String) → Ends Q (found entry next a)
  found-Ends (err e) = goes_on _ (get-insert "from_id" "session_id" nil entry refl)
  found-Ends (ok s) = goes_on _ (get-insert "from_id" "session_id" _ entry refl)

  ask_session-Ends : Ends Q (ask_session entry next)
  unfolding Ends ask_session
  ask_session-Ends =
      elim (Bool-cases
        (not (is_nil (get "chat_id" entry)) && not (is_nil (get "message_id" entry)))) [
          | inr b ↦ rw b (goes_on entry refl)
          | inl b ↦ rw b (elim (Option-cases (as_int (get "message_id" entry))) [
            | inl q ↦ rw q (goes_on entry refl)
            | inr (id, q) ↦ rw q found-Ends
          ])
        ]

report-callbacks :
    (args : MessageArgs) (p : Progress)
    → get "callbacks" (report args p) ≡ list (to_items p.accepted)
unfolding get report counted Dict.insert Dict.lookup
report-callbacks args p = refl

-- The rest of the loop once a press is accepted.
abbrev each_accepted : MessageArgs → Option (String → String) → Progress → List Map → Map → Program
each_accepted args find p entries e = each args find (accept p e) entries

each-OnlyCallers :
    (args : MessageArgs) (find : Option (String → String)) (p : Progress) (entries : List Map)
    → All (FromCaller (caller_ids args.allowed_from_ids)) p.accepted
    → Ends (OnlyCallers (caller_ids args.allowed_from_ids)) (each args find p entries)
unfolding each Ends
each-OnlyCallers args find p [] h = (p.accepted, report-callbacks args p, h)
each-OnlyCallers args find p (entry ∷ entries) h =
    let allowed = caller_ids args.allowed_from_ids in
    elim (Bool-cases (is_elsewhere args entry)) [
      | inl b ↦ rw b (each-OnlyCallers args find (move p entry) entries h)
      | inr b ↦ rw b (elim (Option-cases (rejection_reason entry allowed find)) [
        | inr (reason, r) ↦
            rw r (each-OnlyCallers args find (reject (move p entry) entry reason) entries h)
        | inl r ↦ rw r (
            let next = each_accepted args find (move p entry) entries in
            acknowledge-Ends (OnlyCallers allowed) entry (λ acked. ask_session acked next)
              (λ acked same. ask_session-Ends (OnlyCallers allowed) acked next (λ en same'.
                let from : FromCaller allowed en =
                  rw (same', same) (rejection_reason-FromCaller entry allowed find r) in
                each-OnlyCallers args find (accept (move p entry) en) entries
                  (All-append (FromCaller allowed) p.accepted (en ∷ []) h (from, tt))))
              args)
      ])
    ]

-- An error, or a report whose presses are all from callers.
abbrev pub Handed : List ℤ → Map → Type 0
Handed allowed result = (get "callbacks" result ≡ nil) ⊎ OnlyCallers allowed result

err_result-callbacks : (m : String) → get "callbacks" (err_result m) ≡ nil
unfolding get err_result Dict.lookup
err_result-callbacks m = refl

safe_error-callbacks : (e : GoError) → get "callbacks" (safe_error e) ≡ nil
unfolding get safe_error err_result Dict.lookup
safe_error-callbacks e = ground arith

module _ (compile : String → Result String (String → String)) (iso : ℤ → String)
    (polled_at : String) where
  poll_presses-Handed :
      (args : MessageArgs) (find : Option (String → String))
      → Ends
          (Handed (caller_ids args.allowed_from_ids))
          (poll_presses compile iso polled_at args find)
  unfolding poll_presses Ends
  poll_presses-Handed args find =
      elim (Bool-cases (not (is_unset args.message_id) && not args.peek)) [
        | inl b ↦ rw b (inl (err_result-callbacks _))
        | inr b ↦ rw b answer
      ]
    where
      answer :
          (a : Result GoError (List Map))
          → Ends (Handed (caller_ids args.allowed_from_ids)) (
              answered
                (λ updates.
                  each args find
                    (record { accepted = []; ignored = []; cursor = args.since_id })
                    (entries_of compile iso polled_at updates))
                a)
      answer (err e) = inl (safe_error-callbacks e)
      answer (ok updates) =
          Ends-mono (OnlyCallers (caller_ids args.allowed_from_ids)) _ _ (λ r h. inr h)
            (each-OnlyCallers args find _ (entries_of compile iso polled_at updates) tt)

  -- The presses that handleCallbacks hands over are all from the callers that AllowedFromIDs names,
  -- where it names any, whatever the updates and the answers to its calls are.
  pub handle_callbacks-Handed :
      (args : MessageArgs)
      → Ends
          (Handed (caller_ids args.allowed_from_ids))
          (handle_callbacks compile iso polled_at args)
  unfolding handle_callbacks Ends
  handle_callbacks-Handed args = elim (Bool-cases (ltb 200 (rune_count args.answer_text))) [
    | inl h ↦ rw h (inl (err_result-callbacks _))
    | inr h ↦ rw h (elim (Bool-cases (str_eq args.data_pattern "")) [
      | inl d ↦ rw d (poll_presses-Handed args none)
      | inr d ↦ rw d (compiled (compile args.data_pattern))
    ])
  ]
    where
      compiled :
          (r : Result String (String → String))
          → Ends (Handed (caller_ids args.allowed_from_ids)) (elim r [
            | err e ↦ done (err_result (Prim.Native.String.◌++◌ "Invalid data_pattern regex: " e))
            | ok find ↦ poll_presses compile iso polled_at args (some find)
          ])
      compiled (err e) = inl (err_result-callbacks _)
      compiled (ok find) = poll_presses-Handed args (some find)
