-- ===== src/Audit/Privacy.antt =====
-- src/proxy.rs: without a permit for the archive, the archive's fields of an event stay empty.
use open_ai_lb.Prelude.{
  ℕ, Bool, true, false, none, some, [], ◌∷◌, ◌≡◌, arith, if◌then◌else◌, length, ◌⊎◌,
}
use open_ai_lb.Prelude.Int.{pos}
use open_ai_lb.External.{External}
use open_ai_lb.Audit.{AuditEvent}
use open_ai_lb.Audit.Tracker.{
  Setter, provider, affinity, reasoning_effort, request, compression_headers,
  upstream_accept_encoding, response_headers, upstream_http_version, upstream_request_headers,
  first_byte, request_size, response_size, response_body, error_response, set_event, error_body,
  with_response_headers,
}

-- The permit for the archive is missing, and the fields of the archive are as the event began: no list
-- of headers and no body; a stream leaves an empty body. The other fields hold some values of headers (the
-- encodings, the thread).
abbrev pub IsPrivate : AuditEvent → Type 0
IsPrivate e =
    (e.request_archive ≡ false)
    × (e.request_headers_json ≡ "[]")
    × (e.request_body ≡ [])
    × (e.upstream_request_headers_json ≡ none)
    × (e.response_headers_json ≡ none)
    × ((e.response_body ≡ none) ⊎ (e.response_body ≡ some []))

gated : (t : Bool) (e f : AuditEvent) → t ≡ false → IsPrivate e → IsPrivate (if t then f else e)
gated true e f h p = absurd (ground arith)
gated false e f h p = p

module _ (x : External) where
  pub set_event-IsPrivate :
      (s : Setter) (started : ℕ) (e : AuditEvent)
      → IsPrivate e
      → IsPrivate (set_event x s started e)
  unfolding set_event
  set_event-IsPrivate (provider id) started e p = p
  set_event-IsPrivate (affinity key source) started e p = p
  set_event-IsPrivate (reasoning_effort effort) started e p = p
  set_event-IsPrivate (request headers body truncated) started e p =
      gated e.request_archive e _ p.0 p
  set_event-IsPrivate (compression_headers [] none) started e p = p
  set_event-IsPrivate (compression_headers [] (some upstream)) started e p = p
  set_event-IsPrivate (compression_headers (h ∷ hs) none) started e p = p
  set_event-IsPrivate (compression_headers (h ∷ hs) (some upstream)) started e p = p
  set_event-IsPrivate (upstream_accept_encoding headers) started e p = p
  set_event-IsPrivate (response_headers headers) started e p = gated e.request_archive e _ p.0 p
  set_event-IsPrivate (upstream_http_version version) started e p = p
  set_event-IsPrivate (upstream_request_headers headers) started e p =
      gated e.request_archive e _ p.0 p
  set_event-IsPrivate (first_byte now) started e p = p
  set_event-IsPrivate (request_size bytes) started e p = p
  set_event-IsPrivate (response_size bytes) started e p = p
  set_event-IsPrivate (response_body body truncated) started e p = gated e.request_archive e _ p.0 p
  set_event-IsPrivate (error_response error) started e p =
      let sized = record e {
        response_bytes = pos (length (error_body x error));
        response_transport_bytes = pos (length (error_body x error));
      } in
      let headed = with_response_headers x (("content-type", some "application/json") ∷ []) sized in
      let q = gated e.request_archive sized _ p.0 p in gated headed.request_archive headed _ q.0 q
