-- ===== src/Access/Roundtrip.antt =====
-- src/api.rs, src/auth.rs: the secret of a new key identifies its user.
use Prim.Native.String
use text.Mathlib.TextLemmas.{nil-append, cons-append}
use open_ai_lb.Prelude.{
  String, Bool, true, false, not, ◌||◌, none, some, List, [], ◌∷◌, ◌++◌, ◌≡◌, refl, ap, inl, inr,
  arith, ◌==◌, eq_refl, Bool-cases, subst,
}
use open_ai_lb.Prelude.Int.{ℤ}
use open_ai_lb.Text.{strip_text, is_empty, starts_with, strip_prefix, chars}
use open_ai_lb.Errors.{Result, ok, err, panic}
use open_ai_lb.External.{External}
use open_ai_lb.Audit.{HeaderMap}
use open_ai_lb.Serving.Dispatch.{Identity}
use open_ai_lb.Access.{User, Consumer, AccessTables, bearer, find_user, find_active, api_identity}
use open_ai_lb.Access.Consumers.{
  consumer_name, Created, is_taken, secret_of, new_consumer, create_consumer,
}

strip_text-append : (p s : String) → strip_text p (String.◌++◌ p s) ≡ some s
unfolding strip_text
strip_text-append String.[] s = ap some (nil-append s)
strip_text-append (String.◌∷◌ c p) s =
    rw (cons-append c p s) (ground (arith, strip_text-append p s))

strip_prefix-append :
    (p s : String) → strip_prefix (chars p) (chars (String.◌++◌ p s)) ≡ some (chars s)
unfolding chars
strip_prefix-append String.[] s = ap (λ t. some (chars t)) (nil-append s)
strip_prefix-append (String.◌∷◌ c p) s =
    rw (cons-append c p s) (ground (arith, strip_prefix-append p s))

-- The headers with which a client uses a secret.
abbrev pub with_secret : String → HeaderMap
with_secret secret = ("authorization", some (String.◌++◌ "Bearer " secret)) ∷ []

starts_with-secret_of : (random : String) → starts_with (secret_of random) "sk-" ≡ true
starts_with-secret_of random = rw (strip_prefix-append "sk-" random)

full-secret_of : (random : String) → is_empty (secret_of random) ≡ false
full-secret_of random = ap is_empty (cons-append _ _ random)

bearer-with_secret :
    (random : String) → bearer (with_secret (secret_of random)) ≡ ok (secret_of random)
unfolding bearer
bearer-with_secret random =
    rw (strip_text-append "Bearer " (secret_of random), full-secret_of random)

find_active-append :
    (consumers : List Consumer) (c : Consumer) (id : String)
    → is_taken consumers id c.secret_hash ≡ false
    → c.revoked_at ≡ none
    → find_active (consumers ++ (c ∷ [])) c.secret_hash ≡ some c
unfolding is_taken find_active
find_active-append [] c id h live = rw (eq_refl c.secret_hash, live)
find_active-append (d ∷ consumers) c id h live =
    ground (arith, h, find_active-append consumers c id (ground (arith, h)) live)

-- What a new key identifies.
abbrev pub owner_of : User → String → Bool → String → Identity
owner_of u user_id request_archive id = record {
  api = record { consumer_id = id; user_id = user_id; request_archive = request_archive };
  all_providers = not (u.role == "user") || u.provider_access;
}

module _ (x : External) (t : AccessTables) (user_id : String) (request_archive : Bool)
    (random id : String) (now : ℤ) (u : User) (known : find_user t.users user_id ≡ some u) where
  abbrev with_new : String → AccessTables
  with_new name = record t {
    consumers = t.consumers ++ (new_consumer x user_id name request_archive random id now ∷ []);
  }

  new-identified :
      (name : String)
      → is_taken t.consumers id (x.sha256_hex (secret_of random)) ≡ false
      → api_identity x (with_new name) (with_secret (secret_of random))
        ≡ ok (owner_of u user_id request_archive id)
  unfolding api_identity
  new-identified name free = rw (
    bearer-with_secret random,
    starts_with-secret_of random,
    find_active-append t.consumers (new_consumer x user_id name request_archive random id now) id
        free refl,
    known,
  )

  abbrev Identifies : Result (Created × AccessTables) → Type 0
  Identifies (ok (created, t')) =
      api_identity x t' (with_secret created.secret) ≡ ok (owner_of u user_id request_archive id)
  Identifies (err e) = Unit
  Identifies panic = Unit

  create_consumer-Identifies :
      (name : String) (r : Result String)
      → consumer_name name ≡ r
      → Identifies (create_consumer x t user_id name request_archive random id now)
  unfolding create_consumer
  create_consumer-Identifies name (ok trimmed) h =
      elim (Bool-cases (is_taken t.consumers id (x.sha256_hex (secret_of random)))) [
        | inl taken ↦ rw (h, taken) tt
        | inr free ↦ rw (h, free) (new-identified trimmed free)
      ]
  create_consumer-Identifies name (err a) h = rw h tt
  create_consumer-Identifies name panic h = rw h tt

  -- If a user makes a key, then a request with the secret that the answer shows is identified as from
  -- that key and that user, with the archive that was asked for, and with all providers if the user is
  -- no tenant or has them all.
  pub create_consumer-api_identity :
      (name : String) {created : Created} {t' : AccessTables}
      → create_consumer x t user_id name request_archive random id now ≡ ok (created, t')
      → api_identity x t' (with_secret created.secret) ≡ ok (owner_of u user_id request_archive id)
  create_consumer-api_identity name e =
      subst Identifies e (create_consumer-Identifies name (consumer_name name) refl)
