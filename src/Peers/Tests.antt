-- ===== src/Peers/Tests.antt =====
-- Runs of the peer index, and its theorems at concrete inputs.
use better_telegram_mcp.Base.{◌≡◌, ◌||◌, refl, none, some, [], ◌∷◌, arith, take}
use better_telegram_mcp.Base.Int.{pos, neg, ◌-ℤ◌, negsuc}
use better_telegram_mcp.Base.Dict
use better_telegram_mcp.Folders.{user, chat, channel, peer_ref}
use better_telegram_mcp.Peers.{
  int_key, SweepState, Account, resolve_channel_id, lookup_numeric, sweep_dialogs_limit, is_recent,
  sweep_peers, indexed, remember, remember_all, sweep_dialogs, sweep_rest, after_folders,
  resolve_numeric,
}
use better_telegram_mcp.Peers.Numeric.{lookup_numeric-peer_ref}
use better_telegram_mcp.Peers.Sweep.{mentions, filed, sweep_peers-indexed, sweep_peers-limited}

abbrev account : Account
account = record {
  folders = none;
  contacts = user (pos 5) (pos 1) ∷ [];
  dialogs = chat (pos 6) ∷ channel (pos 7) (pos 2) ∷ [];
  archive = [];
}

abbrev unswept : SweepState
unswept = record { swept_at = none; known_peers = [] }

resolved :
    (resolve_numeric (λ l. none) (λ l. none) 0 account (negsuc 1000000000006) unswept).0
    ≡ some (channel (pos 7) (pos 2))
unfolding resolve_numeric lookup_numeric sweep_peers is_recent after_folders indexed sweep_rest
    remember_all remember sweep_dialogs peer_ref neg ◌-ℤ◌ Dict.lookup Dict.insert
resolved = refl

lookup_numeric-peer_ref_example :
    lookup_numeric (peer_ref (channel (pos 7) (pos 2))) ≡ resolve_channel_id (pos 7)
lookup_numeric-peer_ref_example = lookup_numeric-peer_ref (channel (pos 7) (pos 2)) (omega arith)

sweep_peers-indexed_example :
    indexed (pos 5) (sweep_peers 0 (pos 5) account unswept).known_peers ≡ (
      filed (pos 5) account.folders
      || mentions (pos 5) account.contacts
      || mentions (pos 5) (take sweep_dialogs_limit account.dialogs)
      || mentions (pos 5) (take sweep_dialogs_limit account.archive)
      || indexed (pos 5) unswept.known_peers)
unfolding is_recent
sweep_peers-indexed_example = sweep_peers-indexed 0 (pos 5) account unswept refl refl

sweep_peers-limited_example :
    sweep_peers 9 (pos 8) account (sweep_peers 0 (pos 5) account unswept)
    ≡ sweep_peers 0 (pos 5) account unswept
unfolding is_recent
sweep_peers-limited_example =
    sweep_peers-limited 0 9 (pos 5) (pos 8) account account unswept refl (omega arith)
