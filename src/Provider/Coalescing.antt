-- ===== src/Provider/Coalescing.antt =====
-- src/balancer.rs: updates that wait for the database are merged into one, and the cache takes an update
-- as the row of the table does.
use open_ai_lb.Prelude.{◌≡◌, arith}
use open_ai_lb.Prelude.Int.{ℤ, pos, ◌≤ℤ◌, max_ℤ, eq_of_parts}
use open_ai_lb.Provider.{Provider, ProviderUpdate, merge, update_row, observe_provider}

max_ℤ-eq_right : (a b : ℤ) → a ≤ℤ b → max_ℤ a b ≡ b
unfolding max_ℤ
max_ℤ-eq_right a b h = ground (arith, eq_of_parts a b)

max_ℤ_assoc : (a b c : ℤ) → max_ℤ (max_ℤ a b) c ≡ max_ℤ a (max_ℤ b c)
unfolding max_ℤ
max_ℤ_assoc a b c = ground arith

-- One write of the merge of two updates, of which the second is not older, leaves the row of the table
-- of providers as their two writes would. The circuit events are another table, of which this says
-- nothing.
pub update_row-merge :
    (row : Provider) (u v : ProviderUpdate)
    → u.updated_at ≤ℤ v.updated_at
    → update_row row (merge u v) ≡ update_row (update_row row u) v
unfolding update_row merge
update_row-merge row u v h = ground (arith, max_ℤ-eq_right u.updated_at v.updated_at h)

-- Merging is associative: it does not matter how the updates that wait are grouped.
merge_assoc : (a b c : ProviderUpdate) → merge (merge a b) c ≡ merge a (merge b c)
unfolding merge
merge_assoc a b c = ground (arith, max_ℤ_assoc a.updated_at b.updated_at c.updated_at)

-- The cache of a provider that is not disabled takes an update as its row does.
pub observe_provider-eq-update_row :
    (p : Provider) (u : ProviderUpdate)
    → p.manual_disabled ≡ pos 0
    → observe_provider p u ≡ update_row p u
unfolding observe_provider update_row
observe_provider-eq-update_row p u d = ground arith
