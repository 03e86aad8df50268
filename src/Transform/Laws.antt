-- ===== src/Transform/Laws.antt =====
-- src/proxy.rs: what `transform_request` changes of a body, member by member.
use open_ai_lb.Prelude.{
  String, Bool, true, false, none, some, ◌≡◌, refl, arith, ◌==◌, eq_iff, ◌or_else◌, if◌then◌else◌,
}
use open_ai_lb.Json.{Value, Fields, field, end, boolean, string, lookup, insert, delete, or_insert}
use open_ai_lb.Transform.{rewrite}

pub lookup-insert :
    (fs : Fields) (k j : String) (v : Value)
    → lookup (insert fs k v) j ≡ (if k == j then some v else lookup fs j)
unfolding lookup insert
lookup-insert end k j v = refl
lookup-insert (field i w fs) k j v =
    ground (arith, eq_iff k j, eq_iff i k, eq_iff i j, lookup-insert fs k j v)

pub lookup-delete :
    (fs : Fields) (k j : String) → lookup (delete fs k) j ≡ (if k == j then none else lookup fs j)
unfolding lookup delete
lookup-delete end k j = ground arith
lookup-delete (field i w fs) k j =
    ground (arith, eq_iff k j, eq_iff i k, eq_iff i j, lookup-delete fs k j)

pub lookup-or_insert :
    (fs : Fields) (k j : String) (v : Value)
    → lookup (or_insert fs k v) j ≡ (if k == j then lookup fs j or_else some v else lookup fs j)
unfolding lookup or_insert
lookup-or_insert end k j v = ground arith
lookup-or_insert (field i w fs) k j v =
    ground (arith, eq_iff k j, eq_iff i k, eq_iff i j, lookup-or_insert fs k j v)

-- Of each member of the body of a request that is no image request: outside compaction, nothing is
-- stored and the two limits are gone; the instructions are there; every other member is as it was.
pub lookup-rewrite :
    (compact : Bool) (fields : Fields) (key : String)
    → lookup (rewrite compact fields) key ≡ (
        if compact
        then (if "instructions" == key
            then lookup fields key or_else some (string "")
            else lookup fields key)
        else if "temperature" == key
        then none
        else if "max_output_tokens" == key
        then none
        else if "store" == key
        then some (boolean false)
        else if "instructions" == key
        then lookup fields key or_else some (string "")
        else lookup fields key)
unfolding rewrite
lookup-rewrite true fields key = lookup-or_insert fields "instructions" key (string "")
lookup-rewrite false fields key = rw (
  lookup-delete
      (delete (insert (or_insert fields "instructions" (string "")) "store" (boolean false))
        "max_output_tokens")
      "temperature" key,
  lookup-delete (insert (or_insert fields "instructions" (string "")) "store" (boolean false))
      "max_output_tokens" key,
  lookup-insert (or_insert fields "instructions" (string "")) "store" key (boolean false),
  lookup-or_insert fields "instructions" key (string ""),
)
