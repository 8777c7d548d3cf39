-- ===== src/Peers/Sweep.antt =====
-- What a sweep of internal/telegram/peercache.go leaves in the index.
use better_telegram_mcp.Base.{
  ℕ, zero, suc, ◌+◌, ◌<◌, ◌≡◌, ◌∙◌, sym, ap, refl, Bool, true, false, ◌||◌, Option, none, some,
  List, [], ◌∷◌, ltb, arith, take, Bool-cases, inl, inr, if◌then◌else◌,
}
use better_telegram_mcp.Base.Int.{ℤ, pos, eqb_ℤ, eqb_ℤ_iff}
use better_telegram_mcp.Base.Dict.{lookup-insert}
use better_telegram_mcp.Folders.{InputPeer, peer_ref, DialogFilter}
use better_telegram_mcp.Peers.{
  int_key, SweepState, sweep_dialogs_limit, sweep_interval, remember, remember_all,
  remember_filter_peers, indexed, sweep_dialogs, Account, after_folders, sweep_rest, is_recent,
  sweep_peers,
}

-- One of the peers has the id.
unfoldable pub mentions : ℤ → List InputPeer → Bool
mentions want [] = false
mentions want (p ∷ ps) = eqb_ℤ (peer_ref p) want || mentions want ps

-- One of the folders names a peer with the id.
unfoldable pub folders_mention : ℤ → List DialogFilter → Bool
folders_mention want [] = false
folders_mention want (f ∷ fs) =
    mentions want f.pinned_peers
    || mentions want f.include_peers
    || mentions want f.exclude_peers
    || folders_mention want fs

abbrev pub filed : ℤ → Option (List DialogFilter) → Bool
filed want none = false
filed want (some fs) = folders_mention want fs

module _ (want : ℤ) (nz : eqb_ℤ want (pos 0) ≡ false) where
  indexed-remember :
      (p : InputPeer) (known : List (ℤ × InputPeer))
      → indexed want (remember p known) ≡ (eqb_ℤ (peer_ref p) want || indexed want known)
  unfolding indexed remember
  indexed-remember p known = elim (Bool-cases (eqb_ℤ (peer_ref p) (pos 0))) [
    | inl b ↦
        let zero_ref : peer_ref p ≡ pos 0 = (eqb_ℤ_iff (peer_ref p) (pos 0)).0 b in
        elim (Bool-cases (eqb_ℤ (peer_ref p) want)) [
          | inl c ↦
              let want_ref : peer_ref p ≡ want = (eqb_ℤ_iff (peer_ref p) want).0 c in
              absurd (ground (arith, zero_ref, want_ref, nz, b))
          | inr c ↦ rw (b, c) refl
        ]
    | inr b ↦ ground (arith, nz, b, lookup-insert (peer_ref p) want p known)
  ]

  indexed-remember_all :
      (ps : List InputPeer) (known : List (ℤ × InputPeer))
      → indexed want (remember_all ps known) ≡ (mentions want ps || indexed want known)
  unfolding remember_all mentions
  indexed-remember_all [] known = refl
  indexed-remember_all (p ∷ ps) known =
      ground (arith, indexed-remember_all ps (remember p known), indexed-remember p known)

  indexed-remember_filter_peers :
      (fs : List DialogFilter) (known : List (ℤ × InputPeer))
      → indexed want (remember_filter_peers fs known)
        ≡ (folders_mention want fs || indexed want known)
  unfolding remember_filter_peers folders_mention
  indexed-remember_filter_peers [] known = refl
  indexed-remember_filter_peers (f ∷ fs) known =
      let pinned = remember_all f.pinned_peers known in
      let included = remember_all f.include_peers pinned in
      ground (
        arith,
        indexed-remember_filter_peers fs (remember_all f.exclude_peers included),
        indexed-remember_all f.exclude_peers included,
        indexed-remember_all f.include_peers pinned,
        indexed-remember_all f.pinned_peers known,
      )

  indexed-after_folders :
      (o : Option (List DialogFilter)) (known : List (ℤ × InputPeer))
      → indexed want (after_folders o known) ≡ (filed want o || indexed want known)
  unfolding after_folders
  indexed-after_folders none known = refl
  indexed-after_folders (some fs) known = indexed-remember_filter_peers fs known

  indexed-sweep_dialogs :
      (n : ℕ) (ps : List InputPeer) (known : List (ℤ × InputPeer))
      → (indexed want (sweep_dialogs n want ps known).0
          ≡ (mentions want (take n ps) || indexed want known))
        × ((sweep_dialogs n want ps known).1 ≡ indexed want (sweep_dialogs n want ps known).0)
  unfolding sweep_dialogs mentions
  indexed-sweep_dialogs zero ps known = (refl, refl)
  indexed-sweep_dialogs (suc n) [] known = (refl, refl)
  indexed-sweep_dialogs (suc n) (p ∷ ps) known =
      let (ih, found) = indexed-sweep_dialogs n ps (remember p known) in
      elim (Bool-cases (indexed want (remember p known))) [
        | inl b ↦ rw b (ground (arith, b, indexed-remember p known), sym b)
        | inr b ↦ rw b (ground (arith, b, ih, indexed-remember p known), found)
      ]

  indexed-sweep_rest :
      (a : Account) (known : List (ℤ × InputPeer))
      → indexed want (sweep_rest want a known) ≡ (
          mentions want a.contacts
          || mentions want (take sweep_dialogs_limit a.dialogs)
          || mentions want (take sweep_dialogs_limit a.archive)
          || indexed want known)
  unfolding sweep_rest
  indexed-sweep_rest a known =
      let people = remember_all a.contacts known in
      let (listed, flag) = indexed-sweep_dialogs sweep_dialogs_limit a.dialogs people in
      let (archived, _) =
        indexed-sweep_dialogs sweep_dialogs_limit a.archive
          (sweep_dialogs sweep_dialogs_limit want a.dialogs people).0 in
      ground (arith, listed, flag, archived, indexed-remember_all a.contacts known)

sweep_peers-known_peers :
    (now : ℕ) (want : ℤ) (a : Account) (s : SweepState)
    → is_recent now s.swept_at ≡ false
    → (sweep_peers now want a s).known_peers ≡ (
        let known = after_folders a.folders s.known_peers in
        if indexed want known then known else sweep_rest want a known)
unfolding sweep_peers
sweep_peers-known_peers now want a s fresh = rw fresh refl

indexed_if :
    (want : ℤ) (b : Bool) (m n : List (ℤ × InputPeer))
    → indexed want (if b then m else n) ≡ (if b then indexed want m else indexed want n)
indexed_if want true m n = refl
indexed_if want false m n = refl

-- The early return leaves out nothing: what it skips would only be added.
early_return :
    (f c d a k x y : Bool)
    → x ≡ (f || k)
    → y ≡ (c || d || a || x)
    → (if x then x else y) ≡ (f || c || d || a || k)
early_return f c d a k x y h g = ground (arith, h, g)

-- A sweep after an id other than 0, when none was made in the last 15 seconds, knows the id at its
-- end exactly when it was known before, or a folder, a contact, or one of the first 1000 dialogs of
-- the chat list or of the archive has it.
pub sweep_peers-indexed :
    (now : ℕ) (want : ℤ) (a : Account) (s : SweepState)
    → eqb_ℤ want (pos 0) ≡ false
    → is_recent now s.swept_at ≡ false
    → indexed want (sweep_peers now want a s).known_peers ≡ (
        filed want a.folders
        || mentions want a.contacts
        || mentions want (take sweep_dialogs_limit a.dialogs)
        || mentions want (take sweep_dialogs_limit a.archive)
        || indexed want s.known_peers)
sweep_peers-indexed now want a s nz fresh =
    let known = after_folders a.folders s.known_peers in
    ap (indexed want) (sweep_peers-known_peers now want a s fresh)
    ∙ indexed_if want (indexed want known) known (sweep_rest want a known)
    ∙ early_return (filed want a.folders) (mentions want a.contacts)
        (mentions want (take sweep_dialogs_limit a.dialogs))
        (mentions want (take sweep_dialogs_limit a.archive)) (indexed want s.known_peers)
        (indexed want known) (indexed want (sweep_rest want a known))
        (indexed-after_folders want nz a.folders s.known_peers) (indexed-sweep_rest want nz a known)

-- After a sweep that ran, another one less than 15 seconds later changes nothing, whatever either
-- is after.
pub sweep_peers-limited :
    (now later : ℕ) (want want' : ℤ) (a a' : Account) (s : SweepState)
    → is_recent now s.swept_at ≡ false
    → later < now + sweep_interval
    → sweep_peers later want' a' (sweep_peers now want a s) ≡ sweep_peers now want a s
unfolding sweep_peers is_recent
sweep_peers-limited now later want want' a a' s fresh soon =
    let h : ltb later (now + sweep_interval) ≡ true = ground (arith, soon) in rw (fresh, h) refl
