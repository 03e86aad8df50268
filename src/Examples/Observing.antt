-- ===== src/Examples/Observing.antt =====
-- Responses of an upstream, and the cooldown that they start.
use open_ai_lb.Prelude.{false, none, some, [], ◌∷◌, ◌≡◌, refl, inr, arith}
use open_ai_lb.Prelude.Int.{pos, ◌<ℤ◌, IsI64}
use open_ai_lb.Json.{lookup}
use open_ai_lb.Provider.{update_row, merge, provider_is_available, usage_limit_cooldown}
use open_ai_lb.Provider.Coalescing.{update_row-merge}
use open_ai_lb.Provider.Cooldown.{usage_limit_cooldown-future}
use open_ai_lb.Upkeep.{track_response}
use open_ai_lb.Upkeep.Tracking.{
  cached, available_at, track_response-limited, track_response-rejected, track_response-used,
}
use open_ai_lb.Examples.{toy, limit_error, alpha, two, cooling, used}

limited : usage_limit_cooldown (some limit_error) (pos 1000) ≡ some (pos 2000)
unfolding usage_limit_cooldown lookup
limited = refl

track_response-limited_example :
    available_at
      (cached (track_response toy two "alpha" 429 (1 ∷ []) "event" (pos 1000)) "alpha")
      (pos 1999)
    ≡ false
unfolding lookup
track_response-limited_example =
    track_response-limited toy two "alpha" "event" (pos 1000) alpha refl (1 ∷ []) (pos 2000)
      (pos 1999) refl limited

track_response-rejected_example :
    available_at
      (cached (track_response toy two "alpha" 403 [] "event" (pos 1000)) "alpha")
      (pos 9999)
    ≡ false
track_response-rejected_example =
    track_response-rejected toy two "alpha" "event" (pos 1000) alpha refl 403 [] (pos 9999) refl
      (inr refl)

unlimited : usage_limit_cooldown none (pos 1000) ≡ none
unfolding usage_limit_cooldown
unlimited = refl

track_response-used_example :
    available_at
      (cached (track_response toy two "alpha" 429 [] "event" (pos 1000)) "alpha")
      (pos 1001)
    ≡ provider_is_available alpha (pos 1001)
track_response-used_example =
    track_response-used toy two "alpha" "event" (pos 1000) alpha refl 429 [] (pos 1001)
      (omega arith) (omega arith) (inr unlimited)

usage_limit_cooldown-future_example : (pos 1000 <ℤ pos 2000) × IsI64 (pos 2000)
usage_limit_cooldown-future_example =
    usage_limit_cooldown-future (some limit_error) (pos 1000) limited

update_row-merge_example :
    update_row alpha (merge cooling used) ≡ update_row (update_row alpha cooling) used
update_row-merge_example = update_row-merge alpha cooling used (omega arith)
