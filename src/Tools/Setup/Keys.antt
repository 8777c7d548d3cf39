-- ===== src/Tools/Setup/Keys.antt =====
-- What config(action="set") of internal/tools/config.go stores.
use better_telegram_mcp.Base.{
  ◌≡◌, refl, Option, none, some, List, [], ◌∷◌, String, Bool-cases, inl, inr, if◌then◌else◌,
}
use better_telegram_mcp.Base.Int.{ℤ}
use better_telegram_mcp.Base.Text.{str_eq}
use better_telegram_mcp.Base.Dict
use better_telegram_mcp.Base.Dict.{lookup-insert}
use better_telegram_mcp.Value.{Value, Map, string_key}
use better_telegram_mcp.Tools.Setup.{
  ConfigArgs, ServerState, generic_form, store, handle_set, set_answer, set_values,
}

abbrev named : String → Option ℤ → String → Option ℤ → Option ℤ
named key none k before = before
named key (some n) k before = if str_eq key k then some n else before

-- The value that a `set` leaves under a key: a named parameter is stored after the generic form.
unfoldable pub asked : ConfigArgs → Option ℤ → String → Option ℤ → Option ℤ
asked args value k before =
    named "timeout" args.timeout k
      (named "message_limit" args.message_limit k (named args.key value k before))

module _ (lower quote : String → String) {S : Type 0} (state : ServerState S) where
  -- Nothing was stored, or there is something to report.
  abbrev Kept : S → S × List (String × ℤ) → Type 0
  Kept s (t, []) = t ≡ s
  Kept s (t, u ∷ us) = Unit

  insert-Kept :
      (s t : S) (key : String) (n : ℤ) (us : List (String × ℤ)) → Kept s (t, Dict.insert key n us)
  unfolding Dict.insert
  insert-Kept s t key n [] = tt
  insert-Kept s t key n ((k, m) ∷ us) = elim (Bool-cases (str_eq k key)) [
    | inl b ↦ rw b tt
    | inr b ↦ rw b tt
  ]

  store-Kept :
      (s : S) (key : String) (given : Option ℤ) (p : S × List (String × ℤ))
      → Kept s p
      → Kept s (store lower quote state key given p)
  unfolding store
  store-Kept s key none p h = h
  store-Kept s key (some n) (t, us) h = insert-Kept s _ key n us

  set_answer-Kept :
      (s : S) (p : S × List (String × ℤ)) (m : Value)
      → Kept s p
      → Dict.lookup "error" (set_answer lower quote state p).0 ≡ some m
      → (set_answer lower quote state p).1 ≡ s
  unfolding set_answer Dict.lookup
  set_answer-Kept s (t, []) m h e = h
  set_answer-Kept s (t, u ∷ us) m h e = absurd (cc)

  set_values-Kept :
      (args : ConfigArgs) (s : S) (p : Option (Option ℤ) × Map) (m : Value)
      → Dict.lookup "error" (set_values lower quote state args s p).0 ≡ some m
      → (set_values lower quote state args s p).1 ≡ s
  unfolding set_values
  set_values-Kept args s (none, refusal) m h = refl
  set_values-Kept args s (some value, r) m h =
      set_answer-Kept s _ m
        (store-Kept s "timeout" args.timeout _ (
          store-Kept s "message_limit" args.message_limit _
            (store-Kept s args.key value (s, []) refl)))
        h

  -- A `set` that reports an error has stored nothing: the state is the one before the call.
  pub handle_set-error :
      (args : ConfigArgs) (s : S) (m : Value)
      → Dict.lookup "error" (handle_set lower quote state args s).0 ≡ some m
      → (handle_set lower quote state args s).1 ≡ s
  unfolding handle_set
  handle_set-error args s m h = set_values-Kept args s _ m h

  module _
      (stored : (k : String) (n : ℤ) (s : S)
        → state.runtime_config (state.set_runtime_value k n s)
          ≡ Dict.insert k n (state.runtime_config s)) where
    store-named :
        (key k : String) (given : Option ℤ) (p : S × List (String × ℤ))
        → Dict.lookup k (state.runtime_config (store lower quote state key given p).0)
          ≡ named key given k (Dict.lookup k (state.runtime_config p.0))
    unfolding store
    store-named key k none (s, us) = refl
    store-named key k (some n) (s, us) =
        rw (stored key n s) (lookup-insert key k n (state.runtime_config s))

    set_answer-state : (p : S × List (String × ℤ)) → (set_answer lower quote state p).1 ≡ p.0
    unfolding set_answer
    set_answer-state (s, []) = refl
    set_answer-state (s, u ∷ us) = refl

    -- When the generic form is well formed, a `set` leaves every key of the runtime limits as it was,
    -- but for the ones it names; where the generic form and a named parameter name the same key, the
    -- named parameter counts.
    pub handle_set-asked :
        (args : ConfigArgs) (s : S) (k : String) (value : Option ℤ) (m : Map)
        → generic_form lower quote state args ≡ (some value, m)
        → Dict.lookup k (state.runtime_config (handle_set lower quote state args s).1)
          ≡ asked args value k (Dict.lookup k (state.runtime_config s))
    unfolding handle_set set_values asked
    handle_set-asked args s k value m h =
        let a = store lower quote state args.key value (s, []) in
        let b = store lower quote state "message_limit" args.message_limit a in
        let c = store lower quote state "timeout" args.timeout b in
        rw
          (
            h,
            set_answer-state c,
            store-named "timeout" k args.timeout b,
            store-named "message_limit" k args.message_limit a,
            store-named args.key k value (s, []),
          )
          refl
