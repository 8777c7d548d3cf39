-- ===== src/Results/Tests.antt =====
-- Runs of the correction of a mistyped action.
use better_telegram_mcp.Base.{◌≡◌, refl, [], ◌∷◌}
use better_telegram_mcp.Results.{closest_match}

sned : closest_match (λ s. s) "sned" ("edit" ∷ "send" ∷ "search" ∷ []) ≡ "send"
unfolding closest_match
sned = refl

far : closest_match (λ s. s) "xyz" ("edit" ∷ "send" ∷ "search" ∷ []) ≡ ""
unfolding closest_match
far = refl
