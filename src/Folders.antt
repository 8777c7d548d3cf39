-- ===== src/Folders.antt =====
-- internal/telegram/user_folders.go: the chat folders of a user account. A request that would change
-- them is a value.
pub mod Ids
pub mod Order
pub mod Chats
mod Tests
use better_telegram_mcp.Base.{
  ℕ, zero, suc, ◌+◌, ◌*◌, ◌^◌, ◌≡◌, Bool, true, false, not, ◌&&◌, ◌||◌, Option, none, some, List,
  [], ◌∷◌, ◌++◌, map, String, filter, length, if◌then◌else◌,
}
use better_telegram_mcp.Base.Int.{ℤ, pos, eqb_ℤ, neg, ◌-ℤ◌}
use better_telegram_mcp.Base.Text.{str_eq}
use better_telegram_mcp.Base.Result.{Result, ok, err, ◌>>=◌, guard}
use better_telegram_mcp.Value.{Value, nil, int, text, Map}

-- tg.InputPeerClass: an id, and the access hash that Telegram wants with a user's or a channel's.
pub data InputPeer : Type 0 where
  user : ℤ → ℤ → InputPeer
  chat : ℤ → InputPeer
  channel : ℤ → ℤ → InputPeer
  other_peer : InputPeer

-- tg.DialogFilter
pub record DialogFilter : Type 0 where
  pub id : ℤ
  pub title : String
  pub emoticon : String
  pub include_peers : List InputPeer
  pub exclude_peers : List InputPeer
  pub pinned_peers : List InputPeer

-- What Telegram lists: a folder, or one of the built-in and the suggested ones.
pub data Item : Type 0 where
  folder : DialogFilter → Item
  built_in : Item

pub data FolderError : Type 0 where
  no_title : FolderError
  no_folder_ids : FolderError
  no_folder : ℤ → FolderError
  no_free_slots : FolderError
  not_in_folder : ℤ → FolderError
  already_in_folder : ℤ → FolderError
  unresolved : FolderError

-- MessagesUpdateDialogFilter, with no filter to delete, and MessagesUpdateDialogFiltersOrder
pub data Request : Type 0 where
  update : ℤ → Option DialogFilter → Request
  reorder : List ℤ → Request

-- peerRef
unfoldable pub peer_ref : InputPeer → ℤ
unfolding ◌-ℤ◌ neg
peer_ref (user id hash) = id
peer_ref (chat id) = neg id
peer_ref (channel id hash) = neg (pos 1000000000000) -ℤ id
peer_ref other_peer = pos 0

-- dialogFilters
unfoldable pub dialog_filters : List Item → List DialogFilter
dialog_filters [] = []
dialog_filters (folder f ∷ items) = f ∷ dialog_filters items
dialog_filters (built_in ∷ items) = dialog_filters items

-- findFolder
unfoldable pub find_folder : ℤ → List DialogFilter → Result FolderError DialogFilter
find_folder id [] = err (no_folder id)
find_folder id (f ∷ fs) = if eqb_ℤ f.id id then ok f else find_folder id fs

-- `used[id]`, `known[id]` and `seen[id]`
unfoldable pub has : List ℤ → ℤ → Bool
has [] id = false
has (x ∷ xs) id = eqb_ℤ x id || has xs id

abbrev pub ids : List DialogFilter → List ℤ
ids = map (λ f. f.id)

-- the loop of nextFolderID, `n` ids from `id` on
unfoldable pub free_from : ℕ → ℕ → List ℤ → Option ℕ
unfolding has
free_from zero id used = none
free_from (suc n) id used = if not (has used (pos id)) then some id else free_from n (suc id) used

-- nextFolderID
unfoldable pub next_folder_id : List DialogFilter → Option ℕ
unfolding free_from
next_folder_id existing = free_from 254 2 (ids existing)

-- emptyToNil
empty_to_nil : String → Value
empty_to_nil s = if str_eq s "" then nil else text s

-- serializeFolder
unfoldable pub serialize_folder : DialogFilter → Map
unfolding empty_to_nil
serialize_folder f =
    ("id", int f.id)
    ∷ ("title", text f.title)
    ∷ ("emoticon", empty_to_nil f.emoticon)
    ∷ ("chats", int (pos (length f.include_peers)))
    ∷ ("pinned", int (pos (length f.pinned_peers)))
    ∷ ("excluded", int (pos (length f.exclude_peers)))
    ∷ []

-- The loop of SetFolderChat: the chats that stay, and whether the one in question was there.
unfoldable pub keep : ℤ → Bool → List InputPeer → List InputPeer × Bool
keep target remove [] = ([], false)
keep target remove (p ∷ ps) =
    let (kept, was_found) = keep target remove ps in
    if eqb_ℤ (peer_ref p) target
    then (if remove then kept else p ∷ kept, true)
    else (p ∷ kept, was_found)

-- The switch of SetFolderChat: the new list of chats.
unfoldable pub set_chat :
    ℤ → InputPeer → Bool → List InputPeer → Result FolderError (List InputPeer)
unfolding keep
set_chat id peer remove peers =
    let (kept, was_found) = keep (peer_ref peer) remove peers in
    if remove && not was_found
    then err (not_in_folder id)
    else if not remove && was_found
    then err (already_in_folder id)
    else ok (if remove then kept else kept ++ peer ∷ [])

-- SetFolderChat: the request it sends. `peer` is what resolvePeer answered.
unfoldable pub set_folder_chat :
    ℤ → Result FolderError InputPeer → Bool → List Item → Result FolderError Request
set_folder_chat id resolved remove items = find_folder id (dialog_filters items) >>= λ f.
    resolved >>= λ peer. set_chat id peer remove f.include_peers >>= λ kept.
    ok (update id (some (record f { include_peers = kept })))

-- CreateFolder; `resolved` is what resolvePeer answered for each of the chats.
unfoldable pub create_folder :
    String → Result FolderError (List InputPeer) → List Item → Result FolderError Request
create_folder title resolved items =
    guard (str_eq title "") no_title (elim (next_folder_id (dialog_filters items)) [
      | none ↦ err no_free_slots
      | some id ↦ resolved >>= λ peers. ok (
          update (pos id) (
            some (record {
              id = pos id;
              title = title;
              emoticon = "";
              include_peers = peers;
              exclude_peers = [];
              pinned_peers = [];
            })))
    ])

-- DeleteFolder
unfoldable pub delete_folder : ℤ → List Item → Result FolderError Request
delete_folder id items = find_folder id (dialog_filters items) >>= λ f. ok (update id none)

-- The first loop of ReorderFolders: the named ids, each once; `seen` are those before.
unfoldable pub named : List ℤ → List ℤ → List ℤ → Result FolderError (List ℤ)
named known seen [] = ok []
named known seen (id ∷ order) = guard (not (has known id)) (no_folder id) (
    if has seen id
    then named known seen order
    else (named known (id ∷ seen) order >>= λ rest. ok (id ∷ rest)))

-- Both loops.
unfoldable pub final_order : List ℤ → List ℤ → Result FolderError (List ℤ)
unfolding named has
final_order known order =
    named known [] order >>= λ first. ok (first ++ filter (λ id. not (has first id)) known)

-- ReorderFolders
unfoldable pub reorder_folders : List ℤ → List Item → Result FolderError Request
unfolding final_order
reorder_folders [] items = err no_folder_ids
reorder_folders (id ∷ order) items =
    final_order (ids (dialog_filters items)) (id ∷ order) >>= λ final. ok (reorder final)
