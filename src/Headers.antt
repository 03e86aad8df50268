-- ===== src/Headers.antt =====
-- src/proxy.rs: the headers that go upstream with a request, and those that come back.
use open_ai_lb.Prelude.{
  String, Bool, false, not, ◌&&◌, ◌||◌, some, List, [], ◌∷◌, ◌++◌, ◌==◌, if◌then◌else◌, contains,
}
use open_ai_lb.Text.{starts_with}
use open_ai_lb.Audit.{HeaderMap}

abbrev pub hop_headers : List String
hop_headers =
    "connection" ∷ "keep-alive" ∷ "proxy-authenticate" ∷ "proxy-authorization" ∷ "te" ∷ "trailer"
    ∷ "transfer-encoding" ∷ "upgrade" ∷ "host" ∷ "content-length" ∷ "cookie" ∷ "proxy-connection"
    ∷ "set-cookie" ∷ []

abbrev pub proxy_only_headers : List String
proxy_only_headers =
    "x-lb-affinity-key" ∷ "x-session-id" ∷ "session_id" ∷ "x-codex-session-id"
    ∷ "x-codex-conversation-id" ∷ []

abbrev pub common_headers : List String
common_headers =
    "accept" ∷ "accept-encoding" ∷ "user-agent" ∷ "originator" ∷ "session-id" ∷ "thread-id"
    ∷ "x-client-request-id" ∷ []

abbrev pub is_withheld : String → Bool
is_withheld lower =
    lower == "authorization" || (contains hop_headers lower || contains proxy_only_headers lower)

abbrev pub is_common : String → Bool
is_common lower =
    contains common_headers lower || (starts_with lower "x-openai-" || starts_with lower "x-codex-")

-- `should_forward_request_header`, of a name in lower case.
unfoldable pub should_forward_request_header : String → String → Bool
should_forward_request_header path lower =
    if is_withheld lower
    then false
    else if path == "/v1/audio/transcriptions"
    then is_common lower || lower == "content-type"
    else is_common lower || starts_with lower "openai-"

-- The loop over the inbound headers of `send_upstream` and its siblings.
unfoldable pub forwarded_headers : String → HeaderMap → HeaderMap
unfolding should_forward_request_header
forwarded_headers path [] = []
forwarded_headers path ((name, value) ∷ headers) =
    if should_forward_request_header path name
    then (name, value) ∷ forwarded_headers path headers
    else forwarded_headers path headers

unfoldable pub filtered_response_headers : HeaderMap → HeaderMap
filtered_response_headers [] = []
filtered_response_headers ((name, value) ∷ headers) =
    if not (contains hop_headers name) && not (name == "x-request-id")
    then (name, value) ∷ filtered_response_headers headers
    else filtered_response_headers headers

-- `RequestBuilder::header` adds a value to a name.
abbrev pub header : String → String → HeaderMap → HeaderMap
header name value headers = headers ++ ((name, some value) ∷ [])
