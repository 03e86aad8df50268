-- ===== src/Writer/Persisting.antt =====
-- src/audit.rs: what `persist` writes, and when it cannot.
use open_ai_lb.Prelude.{
  String, Bool, true, false, not, ◌||◌, Option, none, some, List, [], ◌∷◌, ◌++◌, ◌≡◌, refl, sym, ap,
  ◌∙◌, inl, inr, arith, contains, Bool-cases, append_assoc, append-nil,
}
use open_ai_lb.Prelude.Int.{ℤ}
use open_ai_lb.Writer.{
  Message, event, response_transport, ApiCall, ConsumerUse, Tables, call_ids, consumer_ids, call_of,
  accepts, inserted, set_transport, set_downstream, touch, apply_messages, persist,
}

abbrev pub event_ids : List Message → List String
event_ids [] = []
event_ids (event e ∷ batch) = e.id ∷ event_ids batch
event_ids (response_transport id bytes encoding headers ∷ batch) = event_ids batch

-- The consumers and users of a batch's events are known, and the names of the events are new.
abbrev pub Acceptable : List String → List String → List String → List Message → Type 0
Acceptable consumers users ids [] = Unit
Acceptable consumers users ids (event e ∷ batch) =
    (contains ids e.id ≡ false)
    × (contains consumers e.consumer_id ≡ true)
    × (contains users e.user_id ≡ true)
    × Acceptable consumers users (ids ++ (e.id ∷ [])) batch
Acceptable consumers users ids (response_transport id bytes encoding headers ∷ batch) =
    Acceptable consumers users ids batch

-- An event of a consumer that is not known.
abbrev pub is_orphaned : List String → List Message → Bool
is_orphaned consumers [] = false
is_orphaned consumers (event e ∷ batch) =
    not (contains consumers e.consumer_id) || is_orphaned consumers batch
is_orphaned consumers (response_transport id bytes encoding headers ∷ batch) =
    is_orphaned consumers batch

call_ids-append : (xs ys : List ApiCall) → call_ids (xs ++ ys) ≡ call_ids xs ++ call_ids ys
call_ids-append [] ys = refl
call_ids-append (x ∷ xs) ys = ap (λ l. x.id ∷ l) (call_ids-append xs ys)

call_ids-set_transport :
    (id : String) (bytes : ℤ) (encoding : Option String) (cs : List ApiCall)
    → call_ids (set_transport id bytes encoding cs) ≡ call_ids cs
unfolding set_transport
call_ids-set_transport id bytes encoding [] = refl
call_ids-set_transport id bytes encoding (c ∷ cs) =
    ap (λ l. c.id ∷ l) (call_ids-set_transport id bytes encoding cs)

consumer_ids-touch :
    (keys : List String) (used_at : ℤ) (cs : List ConsumerUse)
    → consumer_ids (touch keys used_at cs) ≡ consumer_ids cs
unfolding touch
consumer_ids-touch keys used_at [] = refl
consumer_ids-touch keys used_at (c ∷ cs) = ap (λ l. c.id ∷ l) (consumer_ids-touch keys used_at cs)

-- The tables after a batch hold its calls behind the old ones.
abbrev pub Holds : Tables → List String → Option Tables → Type 0
Holds t ids o =
    (t' : Tables) × (o ≡ some t') × (call_ids t'.api_calls ≡ call_ids t.api_calls ++ ids)

abbrev Applies : Tables → List String → Option (Tables × List String) → Type 0
Applies t ids o =
    (t' : Tables) × (keys : List String) × (o ≡ some (t', keys))
    × (call_ids t'.api_calls ≡ call_ids t.api_calls ++ ids)

apply_messages-Applies :
    (batch : List Message) (t : Tables) (keys : List String)
    → Acceptable (consumer_ids t.consumers) t.users (call_ids t.api_calls) batch
    → Applies t (event_ids batch) (apply_messages batch t keys)
unfolding apply_messages call_of
apply_messages-Applies [] t keys h = (t, keys, refl, sym (append-nil _))
apply_messages-Applies (event e ∷ batch) t keys (fresh, consumer, user, h) =
    let one = call_ids-append t.api_calls (call_of t.providers e ∷ []) in
    let (t', keys', found, ids) =
      apply_messages-Applies batch (inserted t e) (e.consumer_id ∷ keys) (rw one h) in
    (
      t',
      keys',
      rw (fresh, consumer, user) found,
      ids
          ∙ ap (λ l. l ++ event_ids batch) one
          ∙ append_assoc (call_ids t.api_calls) (e.id ∷ []) (event_ids batch),
    )
apply_messages-Applies (response_transport id bytes encoding headers ∷ batch) t keys h =
    let same = call_ids-set_transport id bytes encoding t.api_calls in
    let (t', keys', found, ids) =
      apply_messages-Applies batch
        (record t {
          api_calls = set_transport id bytes encoding t.api_calls;
          request_archives = set_downstream id headers t.request_archives;
        })
        keys (rw same h) in
    (t', keys', found, ids ∙ ap (λ l. l ++ event_ids batch) same)

-- A batch whose events have known consumers and users and new names is written, and its calls are
-- behind the old ones, in order, each once.
pub persist-Holds :
    (batch : List Message) (used_at : ℤ) (t : Tables)
    → Acceptable (consumer_ids t.consumers) t.users (call_ids t.api_calls) batch
    → Holds t (event_ids batch) (persist batch used_at t)
unfolding persist
persist-Holds batch used_at t h =
    let (t', keys, found, ids) = apply_messages-Applies batch t [] h in
    (record t' { consumers = touch keys used_at t'.consumers }, rw found, ids)

apply_messages-orphaned :
    (batch : List Message) (t : Tables) (keys : List String)
    → is_orphaned (consumer_ids t.consumers) batch ≡ true
    → apply_messages batch t keys ≡ none
unfolding apply_messages
apply_messages-orphaned [] t keys h = absurd (cc h)
apply_messages-orphaned (event e ∷ batch) t keys h = elim (Bool-cases (accepts t e)) [
  | inl a ↦
      rw a
        (apply_messages-orphaned batch (inserted t e) (e.consumer_id ∷ keys) (ground (arith, a, h)))
  | inr a ↦ rw a
]
apply_messages-orphaned (response_transport id bytes encoding headers ∷ batch) t keys h =
    apply_messages-orphaned batch _ keys h

-- A batch with an event of a consumer that is gone is not written: none of its messages is.
pub persist-orphaned :
    (batch : List Message) (used_at : ℤ) (t : Tables)
    → is_orphaned (consumer_ids t.consumers) batch ≡ true
    → persist batch used_at t ≡ none
unfolding persist
persist-orphaned batch used_at t h = rw (apply_messages-orphaned batch t [] h)
