-- ===== src/Examples/Signing.antt =====
-- A state of OAuth that is handed out to Ann and redeemed by her, and a body that is rewritten.
use open_ai_lb.Prelude.{
  true, false, ◌&&◌, none, some, List, [], ◌∷◌, ◌≡◌, ◌==◌, if◌then◌else◌, ◌or_else◌, arith,
}
use open_ai_lb.Prelude.Int.{pos, ◌+ℤ◌, wrap, ltb_ℤ}
use open_ai_lb.Prelude.Map
use open_ai_lb.Json.{Fields, field, end, integer, string, boolean, lookup}
use open_ai_lb.Transform.{rewrite}
use open_ai_lb.Transform.Laws.{lookup-rewrite}
use open_ai_lb.Oauth.{add_flow, redeem, state_hash}
use open_ai_lb.Oauth.Redemption.{
  Call, starts, redeems, Desk, IsBacked, run, run-IsBacked, flow_of, redeem-add_flow,
}
use open_ai_lb.Examples.{toy}

abbrev empty : Desk
empty = record { flows = []; started = []; redeemed = [] }

abbrev calls : List Call
calls =
    starts "ann" "verifier" "state" (pos 100)
    ∷ redeems "state" "bob" (pos 101)
    ∷ redeems "state" "ann" (pos 102)
    ∷ redeems "state" "ann" (pos 103)
    ∷ []

empty-IsBacked : IsBacked toy empty
unfolding Map.get
empty-IsBacked = record { backed = λ hash. omega arith }

run-IsBacked_example : IsBacked toy (run toy empty calls)
run-IsBacked_example = run-IsBacked toy empty calls empty-IsBacked

redeem-add_flow_example :
    redeem toy (add_flow toy [] "ann" "verifier" "state" (pos 100)) "state" "ann" (pos 200) ≡ (
      if ("ann" == "ann") && ltb_ℤ (pos 200) (wrap (pos 100 +ℤ pos 600))
      then (
        some (flow_of "ann" "verifier" (pos 100)),
        Map.remove (add_flow toy [] "ann" "verifier" "state" (pos 100)) (state_hash toy "state"),
      )
      else (none, add_flow toy [] "ann" "verifier" "state" (pos 100)))
redeem-add_flow_example = redeem-add_flow toy [] "ann" "verifier" "state" (pos 100) "ann" (pos 200)

abbrev body : Fields
body = field "store" (boolean true) (field "temperature" (integer (pos 1)) end)

lookup-rewrite_example : lookup (rewrite false body) "store" ≡ (
    if false
    then if "instructions" == "store"
      then lookup body "store" or_else some (string "")
      else lookup body "store"
    else if "temperature" == "store"
    then none
    else if "max_output_tokens" == "store"
    then none
    else if "store" == "store"
    then some (boolean false)
    else if "instructions" == "store"
    then lookup body "store" or_else some (string "")
    else lookup body "store")
lookup-rewrite_example = lookup-rewrite false body "store"
