-- ===== src/Bot/Queue/Finish.antt =====
-- The end of readQueue: what storing the cursor, or not storing it, does to the next offset.
use better_telegram_mcp.Base.{
  ◌≡◌, refl, ◌∙◌, ◌⊎◌, inl, inr, Bool, true, false, some, List, [], ◌∷◌, arith, All,
}
use better_telegram_mcp.Base.Int.{ℤ, ◌≤ℤ◌, ◌<ℤ◌, succ64}
use better_telegram_mcp.Value.{Map}
use better_telegram_mcp.Bot.Update.{update_id, only_callbacks, last}
use better_telegram_mcp.Bot.Cursor.{Cursor, load_cursor}
use better_telegram_mcp.Bot.Queue.{finish}
use better_telegram_mcp.Bot.Queue.Order.{Ascending, le-last, last-All, only_callbacks-All}
use better_telegram_mcp.Bot.History.{floor, Synced, presses, HasRoom, Above}
use better_telegram_mcp.Bot.History.Floor.{
  floor-load, store_cursor-floor, store_cursor-Synced, load_cursor-Synced, has_path-load,
  has_path-store, succ64-gt, All-lt_succ64,
}

-- After a consuming read that took some updates, the next offset is past all of them.
pub finish_past :
    (persists : Bool) (us : List Map) (c : Cursor)
    → Ascending us
    → All HasRoom us
    → (presses (finish true persists us (load_cursor c)).0 ≡ [])
      ⊎ ((o : ℤ) × (floor (finish true persists us (load_cursor c)).1 ≡ some o)
          × All (λ v. update_id v <ℤ o) (presses (finish true persists us (load_cursor c)).0))
unfolding finish only_callbacks
finish_past persists [] c s r = inl refl
finish_past persists (u ∷ us) c s r =
    let b = update_id (last u us) in
    inr (
      succ64 b,
      store_cursor-floor persists (succ64 b) c,
      only_callbacks-All _ (u ∷ us)
          (All-lt_succ64 b (u ∷ us) (last-All HasRoom u us r) (le-last u us s)),
    )

pub finish_mono :
    (consume persists : Bool) (us : List Map) (c : Cursor) (o : ℤ)
    → All HasRoom us
    → All (Above o) us
    → floor c ≡ some o
    → (n : ℤ) × (floor (finish consume persists us (load_cursor c)).1 ≡ some n) × (o ≤ℤ n)
unfolding finish
finish_mono consume persists [] c o r a h = (o, floor-load c ∙ h, omega arith)
finish_mono false persists (u ∷ us) c o r a h = (o, floor-load c ∙ h, omega arith)
finish_mono true persists (u ∷ us) c o r a h =
    let b = update_id (last u us) in
    let g : o <ℤ succ64 b = succ64-gt o b (last-All HasRoom u us r) (last-All (Above o) u us a) in
    (succ64 b, store_cursor-floor persists (succ64 b) c, omega arith)

pub finish-Synced :
    (consume : Bool) (us : List Map) (c : Cursor)
    → c.has_path ≡ true
    → Synced c
    → Synced (finish consume true us (load_cursor c)).1
unfolding finish
finish-Synced consume [] c h s = load_cursor-Synced c s
finish-Synced false (u ∷ us) c h s = load_cursor-Synced c s
finish-Synced true (u ∷ us) c h s = store_cursor-Synced _ c h

pub finish-has_path :
    (consume persists : Bool) (us : List Map) (c : Cursor)
    → (finish consume persists us (load_cursor c)).1.has_path ≡ c.has_path
unfolding finish
finish-has_path consume persists [] c = has_path-load c
finish-has_path false persists (u ∷ us) c = has_path-load c
finish-has_path true persists (u ∷ us) c =
    has_path-store persists _ (load_cursor c) ∙ has_path-load c

pub finish-presses :
    (consume persists : Bool) (us : List Map) (c : Cursor)
    → presses (finish consume persists us c).0 ≡ only_callbacks us
unfolding finish
finish-presses consume persists [] c = refl
finish-presses consume persists (u ∷ us) c = refl
