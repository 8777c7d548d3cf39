-- ===== src/Bot/Update.antt =====
-- internal/telegram/bot.go: one update of the Bot API and onlyCallbacks, shared by both ways in which
-- GetCallbackQueries reads the presses.
use better_telegram_mcp.Base.{Bool, true, false, none, some, List, [], ◌∷◌, filter, String}
use better_telegram_mcp.Base.Int.{ℤ, pos}
use better_telegram_mcp.Value.{Value, nil, Map, get, as_int}

-- asInt(update["update_id"]), 0 where it is not a number
unfoldable pub update_id : Map → ℤ
update_id update = elim (as_int (get "update_id" update)) [ none ↦ pos 0 | some id ↦ id ]

is_callback : Value → Bool
is_callback nil = false
is_callback _ = true

-- onlyCallbacks
unfoldable pub only_callbacks : List Map → List Map
unfolding is_callback
only_callbacks = filter (λ update. is_callback (get "callback_query" update))

-- updates[len(updates)-1]
abbrev pub last {ℓ} : {A : Type ℓ} → A → List A → A
last x [] = x
last x (y ∷ ys) = last y ys

-- *APIError
pub record ApiError : Type 0 where
  pub description : String
  pub code : ℤ

-- The errors of GetCallbackQueries. The three that webhookHint tells apart carry the error of the
-- Bot API; `local_error` is one that is no *APIError.
pub data Failure : Type 0 where
  queue_unreadable : Failure
  unexpected_response : Failure
  local_error : Failure
  webhook_active : ApiError → Failure
  other_reader : ApiError → Failure
  other_refusal : ApiError → Failure

-- What GetCallbackQueries returns: presses, or an error.
pub data Reply : Type 0 where
  handed : List Map → Reply
  failed : Failure → Reply
