-- ===== src/Serving.antt =====
-- src/proxy.rs: what a request reads and writes while it is served. An operation takes a world and
-- gives its result with the next world.
pub mod Upstream
pub mod Refresh
pub mod Attempts
pub mod Images
pub mod Relay
pub mod Dispatch
pub mod Ledger
pub mod Accounting
pub mod Leases
pub mod Handling
pub mod Providers
pub mod Retries
pub mod Reach
pub mod Sending
pub mod Unended
pub mod Telling
pub mod Audited
use open_ai_lb.Prelude.{
  ℕ, suc, ◌+◌, String, Bool, Option, none, some, List, [], ◌∷◌, ◌++◌, ◌or_else◌,
}
use open_ai_lb.Prelude.Int.{ℤ}
use open_ai_lb.Errors.{AppError, Result, ok, err, panic}
use open_ai_lb.External.{External}
use open_ai_lb.Oauth.{OauthConfig, TokenReply}
use open_ai_lb.Balancer.{Balancer, Lease, drop_lease}
use open_ai_lb.Database.{Database}
use open_ai_lb.Audit.{HeaderMap}
use open_ai_lb.Audit.Tracker.{Setter, Version}
use open_ai_lb.Audit.Completion.{Ending}

-- A request to an upstream, and its answer: the chunks of the body, and whether the connection broke
-- after them.
pub record Outbound : Type 0 where
  pub url : String
  pub headers : HeaderMap
  pub body : List ℕ

pub record Reply : Type 0 where
  pub status : ℕ
  pub version : Version
  pub headers : HeaderMap
  pub chunks : List (List ℕ)
  pub broken : Bool

-- What the requests share: the balancer and the tables (the providers in the order of `created_at`
-- and `id`, in which `reload_providers` reads them).
pub record Shared : Type 0 where
  pub balancer : Balancer
  pub db : Database
  pub grants : List (String × String)

-- The members of the configuration that serving reads.
pub record ProxyConfig : Type 0 where
  pub upstream_base : String
  pub upstream_openai_beta : Option String
  pub image_host_model : String
  pub affinity_ttl_seconds : ℤ
  pub oauth : OauthConfig

-- What a request meets at its n-th wait: the configuration that is loaded, the time (in seconds and in
-- milliseconds), fresh names, what other requests did to the shared state, the answers of the upstream
-- and of the token endpoint (no answer is `none`), whether the database takes a statement, whether the
-- disk takes an operation on an upload, and after how many chunks of a stream the client leaves
-- (`none`: it stays); also whether `reqwest` can build a request and `Response::builder` a response of
-- a status and headers. Any functions will do.
pub record Surroundings : Type 0 where
  pub external : External
  pub config : ℕ → ProxyConfig
  pub clock : ℕ → ℤ
  pub millis : ℕ → ℕ
  pub uuids : ℕ → String
  pub meanwhile : ℕ → Shared → Shared
  pub builds : Outbound → Bool
  pub answers : ℕ → HeaderMap → Bool
  pub database : ℕ → Bool
  pub disk : ℕ → Bool
  pub leaves : ℕ → Option ℕ
  pub upstream : ℕ → Outbound → Option Reply
  pub tokens : ℕ → List (String × String) → TokenReply

-- What a request did with leases, and the providers it was sent to.
pub data Event : Type 0 where
  took : String → Event
  dropped : String → Event
  sent : String → Event

-- The events stand newest first; the setters are the calls of the audit tracker, in their order, and
-- the ending is its first call of `finish` or `take_stream`, if there was one.
pub record World : Type 0 where
  pub shared : Shared
  pub waits : ℕ
  pub events : List Event
  pub setters : List Setter
  pub ending : Option Ending

abbrev pub Action : Type 0 → Type 0
Action A = World → Result A × World

module _ {A : Type 0} where
  abbrev pub pure : A → Action A
  pure a w = (ok a, w)

  abbrev pub fail : AppError → Action A
  fail e w = (err e, w)

  abbrev pub gets : (World → A) → Action A
  gets f w = (ok (f w), w)

  abbrev pub lift : Result A → Action A
  lift r w = (r, w)

abbrev pub modify : (World → World) → Action (Unit {0})
modify f w = (ok tt, f w)

abbrev pub continue : {A B : Type 0} → Result A × World → (A → Action B) → Result B × World
continue (ok a, w) f = f a w
continue (err e, w) f = (err e, w)
continue (panic, w) f = (panic, w)

infixl 5 ◌>>=◌ ◌>>◌
abbrev pub ◌>>=◌ : {A B : Type 0} → Action A → (A → Action B) → Action B
◌>>=◌ m f w = continue (m w) f

abbrev pub ◌>>◌ : {B : Type 0} → Action (Unit {0}) → Action B → Action B
m >> k = m >>= λ _. k

abbrev pub log : Event → World → World
log event w = record w { events = event ∷ w.events }

abbrev pub noted : Setter → World → World
noted setter w = record w { setters = w.setters ++ (setter ∷ []) }

abbrev pub set : Setter → Action (Unit {0})
set setter = modify (noted setter)

abbrev pub with_balancer : Balancer → World → World
with_balancer b w = record w { shared = record w.shared { balancer = b } }

-- `finish` and `take_stream` of the tracker, which has its event until the first of them.
abbrev pub concluded : Ending → World → World
concluded ending w = record w { ending = w.ending or_else some ending }

-- A drop of a lease.
unfoldable pub drop_held : Lease → World → World
drop_held lease w =
    log (dropped lease.provider.id) (with_balancer (drop_lease w.shared.balancer lease) w)

-- A lease that is a local variable while an operation runs is dropped if the operation returns early
-- with `?` or panics.
abbrev pub settle_held : {A : Type 0} → Lease → Result A × World → Result A × World
settle_held lease (ok a, w) = (ok a, w)
settle_held lease (err e, w) = (err e, drop_held lease w)
settle_held lease (panic, w) = (panic, drop_held lease w)

abbrev pub guarded : {A : Type 0} → Lease → Action A → Action A
guarded lease m w = settle_held lease (m w)

module _ (s : Surroundings) where
  -- An `await`: the other requests go on meanwhile.
  unfoldable pub wait : World → World
  wait w = record w { shared = s.meanwhile w.waits w.shared; waits = suc w.waits }

  abbrev pub now : World → ℤ
  now w = s.clock w.waits
