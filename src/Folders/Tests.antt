-- ===== src/Folders/Tests.antt =====
-- Runs of the folder operations, and their theorems at concrete inputs.
use better_telegram_mcp.Base.{◌≡◌, refl, true, some, List, [], ◌∷◌, arith}
use better_telegram_mcp.Base.Int.{ℤ, pos, neg, ◌-ℤ◌}
use better_telegram_mcp.Base.Result.{ok, err}
use better_telegram_mcp.Folders.{
  user, channel, DialogFilter, Item, folder, built_in, reorder, peer_ref, keep, has, named, ids,
  next_folder_id, free_from, set_chat, final_order, reorder_folders, no_folder, dialog_filters,
}
use better_telegram_mcp.Folders.Ids.{Picks, next_folder_id-Picks}
use better_telegram_mcp.Folders.Chats.{set_chat-inverse}
use better_telegram_mcp.Folders.Order.{count, final_order-count}

abbrev tab : ℤ → DialogFilter
tab id = record {
  id = id;
  title = "Work";
  emoticon = "";
  include_peers = [];
  exclude_peers = [];
  pinned_peers = [];
}

abbrev tabs : List Item
tabs = folder (tab (pos 2)) ∷ built_in ∷ folder (tab (pos 4)) ∷ folder (tab (pos 5)) ∷ []

abbrev known : List ℤ
known = pos 2 ∷ pos 4 ∷ pos 5 ∷ []

reordered : reorder_folders (pos 5 ∷ pos 5 ∷ []) tabs ≡ ok (reorder (pos 5 ∷ pos 2 ∷ pos 4 ∷ []))
unfolding reorder_folders dialog_filters final_order named has
reordered = refl

unknown_folder : reorder_folders (pos 3 ∷ []) tabs ≡ err (no_folder (pos 3))
unfolding reorder_folders dialog_filters final_order named has
unknown_folder = refl

next_free : next_folder_id (dialog_filters tabs) ≡ some 3
unfolding next_folder_id dialog_filters free_from has
next_free = refl

next_folder_id-Picks_example :
    Picks 254 2 (ids (dialog_filters tabs)) (next_folder_id (dialog_filters tabs))
next_folder_id-Picks_example = next_folder_id-Picks (dialog_filters tabs)

set_chat-inverse_example :
    set_chat
      (pos 2)
      (channel (pos 7) (pos 1))
      true
      (user (pos 3) (pos 2) ∷ channel (pos 7) (pos 1) ∷ [])
    ≡ ok (user (pos 3) (pos 2) ∷ [])
unfolding set_chat keep peer_ref ◌-ℤ◌ neg
set_chat-inverse_example =
    set_chat-inverse (pos 2) (channel (pos 7) (pos 1)) (user (pos 3) (pos 2) ∷ [])
      (user (pos 3) (pos 2) ∷ channel (pos 7) (pos 1) ∷ []) refl

final_order-count_example : count (pos 4) (pos 5 ∷ pos 2 ∷ pos 4 ∷ []) ≡ count (pos 4) known
unfolding final_order named has count
final_order-count_example =
    final_order-count known (pos 5 ∷ []) (pos 5 ∷ pos 2 ∷ pos 4 ∷ []) (pos 4) (omega arith) refl
