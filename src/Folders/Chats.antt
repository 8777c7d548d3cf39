-- ===== src/Folders/Chats.antt =====
-- Putting a chat into a folder and taking it out, by SetFolderChat of
-- internal/telegram/user_folders.go.
use better_telegram_mcp.Base.{
  ◌≡◌, refl, true, false, List, [], ◌∷◌, ◌++◌, arith, Bool-cases, inl, inr,
}
use better_telegram_mcp.Base.Int.{ℤ, eqb_ℤ_iff}
use better_telegram_mcp.Base.Result.{ok}
use better_telegram_mcp.Folders.{InputPeer, peer_ref, keep, set_chat}

keep-absent :
    (target : ℤ) (ps : List InputPeer)
    → (keep target false ps).1 ≡ false
    → (keep target false ps).0 ≡ ps
unfolding keep
keep-absent target [] h = refl
keep-absent target (p ∷ ps) h = ground (arith, keep-absent target ps)

keep-snoc :
    (peer : InputPeer) (ps : List InputPeer)
    → (keep (peer_ref peer) false ps).1 ≡ false
    → keep (peer_ref peer) true (ps ++ peer ∷ []) ≡ (ps, true)
unfolding keep
keep-snoc peer [] h = ground (arith, eqb_ℤ_iff (peer_ref peer) (peer_ref peer))
keep-snoc peer (p ∷ ps) h = ground (arith, keep-snoc peer ps)

-- A chat that SetFolderChat puts into a folder it can take out again, and the folder's chats are then
-- what they were.
pub set_chat-inverse :
    (id : ℤ) (peer : InputPeer) (peers added : List InputPeer)
    → set_chat id peer false peers ≡ ok added
    → set_chat id peer true added ≡ ok peers
unfolding set_chat
set_chat-inverse id peer peers added h = elim (Bool-cases (keep (peer_ref peer) false peers).1) [
  | inl b ↦ absurd (ground (arith, b, h))
  | inr b ↦
      let kept = keep-absent (peer_ref peer) peers b in
      let e : added ≡ peers ++ peer ∷ [] = ground (arith, b, h, kept) in
      rw (e, keep-snoc peer peers b) refl
]
