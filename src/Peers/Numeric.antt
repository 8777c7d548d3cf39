-- ===== src/Peers/Numeric.antt =====
-- peerRef and lookupNumeric are each other's inverses.
use better_telegram_mcp.Base.{◌<◌, ◌≡◌, arith}
use better_telegram_mcp.Base.Int.{pos, negsuc, neg, ◌-ℤ◌}
use better_telegram_mcp.Folders.{InputPeer, user, chat, channel, other_peer, peer_ref}
use better_telegram_mcp.Peers.{
  Lookup, resolve_user_id, resolve_chat_id, resolve_channel_id, lookup_numeric,
}

-- A peer with an id that Telegram gives: positive, and for a basic group below 10 ^ 12.
abbrev pub HasTelegramId : InputPeer → Type 0
HasTelegramId (user (pos id) hash) = 0 < id
HasTelegramId (chat (pos id)) = (0 < id) × (id < 1000000000000)
HasTelegramId (channel (pos id) hash) = 0 < id
HasTelegramId _ = ⊥

-- The question that has the peer for its answer.
abbrev pub asks_for : InputPeer → Lookup
asks_for (user id hash) = resolve_user_id id
asks_for (chat id) = resolve_chat_id id
asks_for (channel id hash) = resolve_channel_id id
asks_for other_peer = resolve_user_id (pos 0)

-- The id that peerRef gives a user, a basic group (id below 10 ^ 12) or a channel with a positive id
-- is the one for which lookupNumeric asks for that very user, group or channel.
pub lookup_numeric-peer_ref :
    (p : InputPeer) → HasTelegramId p → lookup_numeric (peer_ref p) ≡ asks_for p
unfolding lookup_numeric peer_ref neg ◌-ℤ◌
lookup_numeric-peer_ref (user (pos id) hash) h = ground (arith, h)
lookup_numeric-peer_ref (chat (pos id)) h = ground (arith, h)
lookup_numeric-peer_ref (channel (pos id) hash) h = ground (arith, h)
lookup_numeric-peer_ref (user (negsuc id) hash) h = elim h [ ]
lookup_numeric-peer_ref (chat (negsuc id)) h = elim h [ ]
lookup_numeric-peer_ref (channel (negsuc id) hash) h = elim h [ ]
lookup_numeric-peer_ref other_peer h = elim h [ ]
