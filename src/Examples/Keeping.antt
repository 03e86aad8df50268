-- ===== src/Examples/Keeping.antt =====
-- Updates that wait in the balancer and the transaction that writes them.
use open_ai_lb.Prelude.{
  ◌↔◌, In, true, String, List, Option, none, some, [], ◌∷◌, ◌≡◌, ◌⊎◌, refl, sym, inl, inr, arith,
}
use open_ai_lb.Prelude.Int.{pos}
use open_ai_lb.Prelude.Map
use open_ai_lb.Prelude.Map.{Map, Distinct}
use open_ai_lb.Provider.{Provider, find_id, merge}
use open_ai_lb.Balancer.{granted_to, Balancer}
use open_ai_lb.Upkeep.Grants.{reload_providers-granted_to}
use open_ai_lb.Upkeep.{reload_providers, observe, pend}
use open_ai_lb.Upkeep.Tracking.{cached}
use open_ai_lb.Upkeep.Forgetting.{IsForgotten, forget_provider-IsForgotten}
use open_ai_lb.Database.{Database, refuses}
use open_ai_lb.Maintain.{Batch, Saved, run, writes_fail, read_batch, commit, maintain}
use open_ai_lb.Maintain.Flushing.{commit-row, written, expired}
use open_ai_lb.Maintain.Settling.{maintain-keeps}
use open_ai_lb.Maintain.Coherence.{IsCoherent, observe-IsCoherent, maintain-coherent, quiet}
use open_ai_lb.Maintain.Circuits.{OpenIsCooling, commit-OpenIsCooling}
use open_ai_lb.Examples.{alpha, two, tables, cooling, used}

forget_provider-IsForgotten_example : IsForgotten (observe two "alpha" cooling) "alpha"
forget_provider-IsForgotten_example =
    forget_provider-IsForgotten (observe two "alpha" cooling) "alpha"

abbrev batch : Batch
batch = record { updates = ("alpha", cooling) ∷ ("beta", used) ∷ []; affinities = [] }

batch-Distinct : Distinct batch.updates
unfolding Map.get
batch-Distinct = (refl, (refl, tt))

batch-commits : commit batch (pos 700) tables ≡ some (run batch (pos 700) tables)
unfolding commit writes_fail refuses
batch-commits = refl

commit-row_example :
    find_id (run batch (pos 700) tables).0.providers "alpha"
    ≡ expired (written (some alpha) (Map.get batch.updates "alpha")) (pos 700)
commit-row_example = commit-row batch (pos 700) tables "alpha" batch-Distinct batch-commits

commit-OpenIsCooling_example : OpenIsCooling (run batch (pos 700) tables).0
commit-OpenIsCooling_example =
    commit-OpenIsCooling batch (pos 700) tables (inr refl, (inl refl, tt)) (λ e m o. elim m [ ])
      batch-commits

abbrev waiting : Balancer
waiting = observe two "alpha" cooling

waiting-Distinct : Distinct waiting.provider_updates
unfolding observe Map.get Map.put pend
waiting-Distinct = (refl, tt)

meanwhile-some :
    Map.get (observe waiting "alpha" used).provider_updates "alpha" ≡ some (merge cooling used)
unfolding observe Map.get Map.put merge pend
meanwhile-some = refl

maintain-keeps_example :
    (Map.get
        (maintain (λ b. observe b "alpha" used) waiting tables (pos 700)).0.provider_updates
        "alpha"
      ≡ some (merge cooling used))
    ⊎ (find_id (maintain (λ b. observe b "alpha" used) waiting tables (pos 700)).1.providers "alpha"
        ≡ expired (written (some alpha) (some (merge cooling used))) (pos 700))
maintain-keeps_example =
    maintain-keeps (λ b. observe b "alpha" used) waiting tables (pos 700) "alpha"
      (merge cooling used) waiting-Distinct meanwhile-some

written-none : (row : Option Provider) → written row none ≡ row
written-none none = refl
written-none (some p) = refl

two-IsCoherent : IsCoherent two tables
unfolding Map.get
two-IsCoherent = record {
  distinct = tt;
  enabled = λ j p h. ground arith;
  same = λ j. sym (written-none (find_id tables.providers j));
}

observe-IsCoherent_example : IsCoherent (observe two "alpha" cooling) tables
unfolding Map.get
observe-IsCoherent_example = observe-IsCoherent two tables "alpha" cooling two-IsCoherent tt

abbrev done : Database × List Saved
done = run (read_batch waiting) (pos 700) tables

waiting-commits : commit (read_batch waiting) (pos 700) tables ≡ some done
unfolding observe pend Map.get Map.put read_batch commit writes_fail refuses
waiting-commits = refl

waiting-IsCoherent : IsCoherent waiting tables
unfolding Map.get
waiting-IsCoherent = observe-IsCoherent two tables "alpha" cooling two-IsCoherent tt

abbrev settled : Balancer × Database
settled = quiet waiting tables (pos 700) waiting-IsCoherent done waiting-commits

maintain-coherent_example :
    (Map.get settled.0.provider_updates "alpha" ≡ none)
    × (cached settled.0 "alpha" ≡ find_id settled.1.providers "alpha")
    × (cached settled.0 "alpha" ≡ expired (cached waiting "alpha") (pos 700))
maintain-coherent_example =
    maintain-coherent waiting tables (pos 700) waiting-IsCoherent done waiting-commits "alpha"

abbrev grant_row : String × String
grant_row = ("alpha", "bob")

reload_providers-granted_to_example :
    (granted_to (Map.get (reload_providers two [] (grant_row ∷ [])).provider_grants "alpha") "bob"
      ≡ true)
    ↔ In grant_row (grant_row ∷ [])
reload_providers-granted_to_example =
    reload_providers-granted_to two [] (grant_row ∷ []) "alpha" "bob"
