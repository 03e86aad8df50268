-- ===== src/Access/Consumers.antt =====
-- src/api.rs: the keys (consumers) of a user.
use Prim.Native.String
use open_ai_lb.Prelude.{
  String, Bool, true, false, not, ◌&&◌, ◌||◌, Option, none, some, List, [], ◌∷◌, ◌++◌, ◌==◌,
  if◌then◌else◌, is_some, unwrap_or, ltb, filter_by,
}
use open_ai_lb.Prelude.Int.{ℤ}
use open_ai_lb.Text.{is_empty, trim, take_chars}
use open_ai_lb.Errors.{Result, ok, ◌>>=◌, bad_request, not_found}
use open_ai_lb.External.{External}
use open_ai_lb.Oauth.{internal_error}
use open_ai_lb.Access.{Consumer, AccessTables, require, guard}

unfoldable pub consumer_name : String → Result String
consumer_name value = do
  valid ←
      guard (not (is_empty (trim value) || ltb 80 (String.len (trim value))))
        (bad_request "consumer name must be 1-80 characters")
  ok (trim value)

pub record Created : Type 0 where
  pub id : String
  pub name : String
  pub prefix : String
  pub secret : String
  pub request_archive : Bool

-- The unique columns of `consumers`.
unfoldable pub is_taken : List Consumer → String → String → Bool
is_taken [] id hash = false
is_taken (c ∷ consumers) id hash =
    (c.id == id || c.secret_hash == hash) || is_taken consumers id hash

abbrev pub secret_of : String → String
secret_of random = String.◌++◌ "sk-" random

abbrev pub new_consumer : External → String → String → Bool → String → String → ℤ → Consumer
new_consumer x user_id name request_archive random id now = record {
  id = id;
  user_id = user_id;
  name = name;
  prefix = take_chars 11 (secret_of random);
  secret_hash = x.sha256_hex (secret_of random);
  request_archive = request_archive;
  created_at = now;
  revoked_at = none;
}

-- `create_consumer`, once the user is known, with the encoded random bytes and a fresh id.
unfoldable pub create_consumer :
    External
    → AccessTables
    → String
    → String
    → Bool
    → String
    → String
    → ℤ
    → Result (Created × AccessTables)
unfolding consumer_name
create_consumer x t user_id name request_archive random id now = do
  trimmed ← consumer_name name
  free ← guard (not (is_taken t.consumers id (x.sha256_hex (secret_of random)))) internal_error
  ok (
    record {
      id = id;
      name = trimmed;
      prefix = take_chars 11 (secret_of random);
      secret = secret_of random;
      request_archive = request_archive;
    },
    record t {
      consumers =
          t.consumers ++ (new_consumer x user_id trimmed request_archive random id now ∷ []);
    },
  )

-- WHERE id=? AND user_id=?
abbrev pub is_own : String → String → Consumer → Bool
is_own id user_id c = c.id == id && c.user_id == user_id

unfoldable pub find_own : List Consumer → String → String → Option Consumer
find_own [] id user_id = none
find_own (c ∷ consumers) id user_id =
    if is_own id user_id c then some c else find_own consumers id user_id

unfoldable pub set_consumer : String → String → String → Bool → List Consumer → List Consumer
set_consumer id user_id name request_archive [] = []
set_consumer id user_id name request_archive (c ∷ consumers) =
    (if is_own id user_id c then record c { name = name; request_archive = request_archive } else c)
    ∷ set_consumer id user_id name request_archive consumers

abbrev name_for : Option String → String → Result String
name_for none old = ok old
name_for (some name) old = consumer_name name

-- `update_consumer`.
unfoldable pub update_consumer :
    AccessTables → String → String → Option String → Option Bool → Result AccessTables
update_consumer t user_id id name request_archive = do
  something ←
      guard (is_some name || is_some request_archive) (bad_request "consumer update is empty")
  current ← require (not_found "consumer not found") (find_own t.consumers id user_id)
  live ←
      guard (not (is_some request_archive && is_some current.revoked_at))
        (not_found "consumer not found")
  chosen ← name_for name current.name
  ok (record t {
    consumers =
        set_consumer id user_id chosen (unwrap_or request_archive current.request_archive)
          t.consumers;
  })

-- WHERE id=? AND user_id=? AND revoked_at IS NULL
abbrev pub is_revocable : String → String → Consumer → Bool
is_revocable id user_id c = is_own id user_id c && not (is_some c.revoked_at)

unfoldable pub revoke_rows : String → String → ℤ → List Consumer → List Consumer
revoke_rows id user_id now [] = []
revoke_rows id user_id now (c ∷ consumers) =
    (if is_revocable id user_id c then record c { revoked_at = some now } else c)
    ∷ revoke_rows id user_id now consumers

abbrev some_left : List Consumer → Bool
some_left [] = false
some_left (c ∷ consumers) = true

-- `revoke_consumer` and `delete_consumer`.
unfoldable pub revoke_consumer : AccessTables → String → String → ℤ → Result AccessTables
unfolding revoke_rows
revoke_consumer t user_id id now = do
  found ←
      guard (some_left (filter_by (is_revocable id user_id) t.consumers))
        (not_found "consumer not found")
  ok (record t { consumers = revoke_rows id user_id now t.consumers })

unfoldable pub delete_consumer : AccessTables → String → String → Result AccessTables
delete_consumer t user_id id = do
  found ←
      guard (some_left (filter_by (is_own id user_id) t.consumers)) (not_found "consumer not found")
  ok (record t { consumers = filter_by (λ c. not (is_own id user_id c)) t.consumers })
