-- ===== src/Peers.antt =====
-- internal/telegram/peercache.go: the index of peers that a process has seen, and its sweeps; and
-- lookupNumeric and resolveNumeric of internal/telegram/user.go, which use it. What Telegram answers
-- during a sweep is an argument. Times are in nanoseconds.
pub mod Numeric
pub mod Sweep
mod Tests
use better_telegram_mcp.Base.{
  ℕ, zero, suc, ◌+◌, ◌*◌, ◌≡◌, refl, Bool, true, false, not, ◌&&◌, Option, none, some, List, [],
  ◌∷◌, ◌++◌, ltb, leb, if◌then◌else◌,
}
use better_telegram_mcp.Base.Int.{ℤ, pos, negsuc, eqb_ℤ, eqb_ℤ_iff, ltb_ℤ, neg, ◌-ℤ◌}
use better_telegram_mcp.Base.Dict
use better_telegram_mcp.Base.Dict.{Key}
use better_telegram_mcp.Folders.{InputPeer, user, chat, channel, peer_ref, DialogFilter}

pub eqb_ℤ_refl : (a : ℤ) → eqb_ℤ a a ≡ true
eqb_ℤ_refl a = (eqb_ℤ_iff a a).1 refl

instance abbrev pub int_key : Key ℤ
int_key = record { eqb = eqb_ℤ; to_eq = λ a b. (eqb_ℤ_iff a b).0; of_eq = eqb_ℤ_refl }

-- sweepState: `swept_at` is none for the zero time
pub record SweepState : Type 0 where
  pub swept_at : Option ℕ
  pub known_peers : List (ℤ × InputPeer)

-- peerSweepPages * peerSweepLimit and peerSweepInterval
abbrev pub sweep_dialogs_limit : ℕ
sweep_dialogs_limit = 1000

abbrev pub sweep_interval : ℕ
sweep_interval = 15000000000

-- rememberPeerRef
unfoldable pub remember : InputPeer → List (ℤ × InputPeer) → List (ℤ × InputPeer)
remember peer known =
    if eqb_ℤ (peer_ref peer) (pos 0) then known else Dict.insert (peer_ref peer) peer known

unfoldable pub remember_all : List InputPeer → List (ℤ × InputPeer) → List (ℤ × InputPeer)
remember_all [] known = known
remember_all (p ∷ ps) known = remember_all ps (remember p known)

-- rememberFilterPeers
unfoldable pub remember_filter_peers :
    List DialogFilter → List (ℤ × InputPeer) → List (ℤ × InputPeer)
remember_filter_peers [] known = known
remember_filter_peers (f ∷ fs) known = remember_filter_peers fs (
    remember_all f.exclude_peers (remember_all f.include_peers (remember_all f.pinned_peers known)))

-- indexed
unfoldable pub indexed : ℤ → List (ℤ × InputPeer) → Bool
indexed id known =
    if eqb_ℤ id (pos 0)
    then false
    else elim (Dict.lookup id known) [ none ↦ false | some peer ↦ true ]

-- sweepDialogs, with the number of dialogs it may still read; the peers are those of the list
unfoldable pub sweep_dialogs :
    ℕ → ℤ → List InputPeer → List (ℤ × InputPeer) → List (ℤ × InputPeer) × Bool
unfolding remember indexed
sweep_dialogs zero want ps known = (known, indexed want known)
sweep_dialogs (suc n) want [] known = (known, indexed want known)
sweep_dialogs (suc n) want (p ∷ ps) known =
    let rest = sweep_dialogs n want ps (remember p known) in
    if indexed want (remember p known) then (remember p known, true) else rest

-- What Telegram answers to the requests of a sweep: the folders (none where the request fails), the
-- users among the contacts, and the two lists of dialogs as far as they can be read.
pub record Account : Type 0 where
  pub folders : Option (List DialogFilter)
  pub contacts : List InputPeer
  pub dialogs : List InputPeer
  pub archive : List InputPeer

unfoldable pub after_folders :
    Option (List DialogFilter) → List (ℤ × InputPeer) → List (ℤ × InputPeer)
unfolding remember_filter_peers
after_folders none known = known
after_folders (some fs) known = remember_filter_peers fs known

-- The walks of sweepPeers, after the folders.
unfoldable pub sweep_rest : ℤ → Account → List (ℤ × InputPeer) → List (ℤ × InputPeer)
unfolding remember_all sweep_dialogs
sweep_rest want a known =
    let people = remember_all a.contacts known in
    let (listed, was_found) = sweep_dialogs sweep_dialogs_limit want a.dialogs people in
    if indexed want people
    then people
    else if was_found
    then listed
    else (sweep_dialogs sweep_dialogs_limit want a.archive listed).0

-- `!u.sweptAt.IsZero() && time.Since(u.sweptAt) < peerSweepInterval`
unfoldable pub is_recent : ℕ → Option ℕ → Bool
is_recent now none = false
is_recent now (some at) = ltb now (at + sweep_interval)

-- sweepPeers, on a client that is connected
unfoldable pub sweep_peers : ℕ → ℤ → Account → SweepState → SweepState
unfolding after_folders sweep_rest is_recent
sweep_peers now want a s = if is_recent now s.swept_at then s else record {
  swept_at = some now;
  known_peers =
      let filed = after_folders a.folders s.known_peers in
      if indexed want filed then filed else sweep_rest want a filed;
}

-- forgetPeers
unfoldable pub forget_peers : SweepState → SweepState
forget_peers s = record { swept_at = none; known_peers = [] }

-- What lookupNumeric asks the peer manager for.
pub data Lookup : Type 0 where
  resolve_user_id : ℤ → Lookup
  resolve_chat_id : ℤ → Lookup
  resolve_channel_id : ℤ → Lookup

-- lookupNumeric
unfoldable pub lookup_numeric : ℤ → Lookup
unfolding neg ◌-ℤ◌
lookup_numeric id =
    if ltb_ℤ (pos 0) id
    then resolve_user_id id
    else if ltb_ℤ (neg (pos 1000000000000)) id
    then resolve_chat_id (neg id)
    else resolve_channel_id (neg id -ℤ pos 1000000000000)

-- resolveNumeric: the peer and the new state. `manager` is what the peer manager answers before the
-- sweep and `manager'` after it.
unfoldable pub resolve_numeric :
    (Lookup → Option InputPeer)
    → (Lookup → Option InputPeer)
    → ℕ
    → Account
    → ℤ
    → SweepState
    → Option InputPeer × SweepState
unfolding lookup_numeric sweep_peers
resolve_numeric manager manager' now a id s = elim (manager (lookup_numeric id)) [
  | some peer ↦ (some peer, s)
  | none ↦ elim (Dict.lookup id s.known_peers) [
    | some peer ↦ (some peer, s)
    | none ↦
        let s' = sweep_peers now id a s in
        elim (Dict.lookup id s'.known_peers) [
          | some peer ↦ (some peer, s')
          | none ↦ (manager' (lookup_numeric id), s')
        ]
  ]
]
