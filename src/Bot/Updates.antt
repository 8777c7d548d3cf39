-- ===== src/Bot/Updates.antt =====
-- internal/telegram/bot.go: GetCallbackQueries over getUpdates, confirmUpdates and webhookHint.
pub mod Highest
pub mod Answer
pub mod Steps
use better_telegram_mcp.Base.{
  ℕ, zero, suc, ◌+◌, ◌≤◌, ◌<◌, ◌^◌, ◌≡◌, refl, sym, ap, ◌∙◌, ◌⊎◌, inl, inr, Bool, true, false,
  Option, none, some, List, [], ◌∷◌, String, arith, All, All-map, Bool-cases, Option-cases,
  if◌then◌else◌,
}
use better_telegram_mcp.Base.Int.{
  ℤ, pos, ◌≤ℤ◌, ◌<ℤ◌, ltb_ℤ, eqb_ℤ, negsuc, succ64, pos_part, neg_part, ◌+ℤ◌,
}
use better_telegram_mcp.Value.{Map}
use better_telegram_mcp.Bot.Update.{update_id, only_callbacks, last, Reply, handed, failed}
use better_telegram_mcp.Bot.Cursor.{
  Cursor, CursorFile, stored, restart, load_cursor, store_cursor, effective_offset,
  offset_value_int, clamp,
}
use better_telegram_mcp.Base.{◌||◌, ◌&&◌, not}
use better_telegram_mcp.Base.Text.{contains_text}
use better_telegram_mcp.Value.{get, as_int}
use better_telegram_mcp.Bot.Update.{
  ApiError, Failure, unexpected_response, local_error, webhook_active, other_reader, other_refusal,
}

-- What the Bot API answers to getUpdates.
pub data ApiReply : Type 0 where
  refused : ApiError → ApiReply
  local_failure : ApiReply
  undecodable : ApiReply
  updates : List Map → ApiReply

-- A getUpdates request that leaves the process: its offset and its limit.
pub record GetUpdates : Type 0 where
  pub offset : Option ℤ
  pub limit : ℤ

-- webhookHint, for an *APIError; `lower` is strings.ToLower
unfoldable pub webhook_hint : (String → String) → ApiError → Failure
unfolding contains_text
webhook_hint lower e =
    if contains_text (lower e.description) "webhook"
    then webhook_active e
    else if eqb_ℤ e.code (pos 409)
        || contains_text (lower e.description) "terminated by other getupdates"
    then other_reader e
    else other_refusal e

-- `id, ok := asInt(…); ok && id > highest`
unfoldable pub higher : Option ℤ → ℤ → ℤ
higher none highest = highest
higher (some id) highest = if ltb_ℤ highest id then id else highest

-- The loop for `highest`; an update with no id is passed over.
unfoldable pub highest_id : ℤ → List Map → ℤ
unfolding higher
highest_id highest [] = highest
highest_id highest (u ∷ us) = highest_id (higher (as_int (get "update_id" u)) highest) us

-- confirmUpdates: the cursor is stored first, then Telegram is told. Its answer is ignored.
unfoldable pub confirm_updates : Bool → ℤ → Cursor → Cursor × List GetUpdates
confirm_updates persists next_offset c =
    (store_cursor persists next_offset c, record { offset = some next_offset; limit = pos 1 } ∷ [])

-- What follows a decoded, non-empty answer.
unfoldable pub take_updates : Bool → Bool → List Map → Cursor → Reply × Cursor × List GetUpdates
unfolding confirm_updates
take_updates consume persists us c =
    let highest = highest_id (negsuc 0) us in
    let (c', sent) = confirm_updates persists (succ64 highest) c in
    if consume && not (ltb_ℤ highest (pos 0))
    then (handed (only_callbacks us), c', sent)
    else (handed (only_callbacks us), c, [])

unfoldable pub after_answer :
    (String → String) → ApiReply → Bool → Bool → Cursor → Reply × Cursor × List GetUpdates
after_answer lower (refused e) consume persists c = (failed (webhook_hint lower e), c, [])
after_answer lower local_failure consume persists c = (failed local_error, c, [])
after_answer lower undecodable consume persists c = (failed unexpected_response, c, [])
after_answer lower (updates []) consume persists c = (handed [], c, [])
after_answer lower (updates (u ∷ us)) consume persists c = take_updates consume persists (u ∷ us) c

-- GetCallbackQueries with no queue file. `answer` is Telegram; the result lists the requests made
-- after the first one.
unfoldable pub poll_updates :
    (String → String)
    → (Option ℤ → ℤ → ApiReply)
    → Option ℤ
    → ℤ
    → Bool
    → Bool
    → Cursor
    → Reply × Cursor × List GetUpdates
poll_updates lower answer since_id limit consume persists c =
    let c' = load_cursor c in
    after_answer lower
      (answer (effective_offset c'.callback_offset since_id) (clamp limit (pos 1) (pos 100)))
      consume persists c'
