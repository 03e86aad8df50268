-- ===== src/Lib.antt =====
-- A model of OpenAI-LB, a proxy that spreads the calls of its users over several upstream accounts
-- (providers), keeps an audit of them and charges them.
--
-- A request is identified, a provider is selected and leased by the balancer, the call is sent
-- upstream, the response is observed by the balancer and passed on, and an event of the call goes to
-- the audit queue. In the background, the balancer writes what it observed to the database.
--
-- The files, with the code (paths from the repository's root):
-- - Prelude: helpers. Prelude/Int has the integers with the wrap-around and the saturation of i64,
--   Prelude/Map the hash maps as association lists.
-- - Errors (AppError of src/lib.rs), Json (the values of serde_json) and External (what other packages
--   compute: a digest, the reader and the printers of JSON; any functions will do).
-- - Provider, Balancer, Upkeep, Database, Maintain: src/balancer.rs. Provider has the record of a
--   provider and what an update does to it, in the cache (`observe_provider`) and in the table
--   (`update_row`); Balancer has `select` and the leases; Upkeep has the observations, reloads and
--   `forget_provider`; Database has the tables with the trigger of
--   migrations/20260808000025_provider_circuit_events.sql; Maintain has `maintain`. An operation takes
--   the time and the state, gives its result with the new state, and is one step of the model: calls
--   interleave between operations, not inside one. The exception is `maintain`, between whose batch and
--   settlement any traffic may come: an argument of the model. A counter is a 64-bit word.
-- - Usage, Pricing, Sse: the usage of tokens, its price, and the event streams it is read from, in
--   src/proxy.rs; Sse also has the previews of bodies, there and in src/audio_spool.rs.
-- - Audit: the tracker of a call's audit event and the completion of a stream, in src/proxy.rs, with
--   the event of src/audit.rs. The drops at the ends of scopes are calls. A panic is a result.
-- - Text: prefixes, `trim`, `parse` and the other functions of texts that the program calls.
-- - Images: the checks of an image request, in src/proxy.rs.
-- - Headers, Keys, Transform: the headers that are passed on, the keys of a conversation and the body
--   that goes upstream (`transform_request`), in src/proxy.rs.
-- - Oauth: src/oauth.rs, with the flows that wait for their code. Random texts are arguments.
-- - Serving: the handlers `handle_json` and `handle_audio` of src/proxy.rs, once the caller is known, as
--   functions on a world with the shared balancer and tables. At each wait (`await`) any change of the
--   shared state by other requests may come, and another configuration: arguments. Upstream has the requests, Refresh
--   `refresh_if_needed`, Attempts the choice of providers (the code that `dispatch` and `dispatch_audio`
--   have in common is `forward`), Images and Relay the answers, Dispatch the handlers. The drop of a
--   lease at the end of its scope is a call; a log keeps which leases were taken and dropped and where
--   requests were sent. The other children have proofs.
-- - Access: src/auth.rs, with the keys, the roles, the setup, the
--   grants and the visible archived headers of src/api.rs, over their tables. What the verifier of tokens answers is an argument.
-- - Writer: the loop of src/audit.rs that writes the queue in batches, over the tables of migrations/
--   with their foreign keys, and the deletion of expired archives.
-- - Examples: data, and a use of each result at them.
--
-- Fuel: the loop over the lines of a stream (`drain_lines`) has the number of pending bytes as fuel,
-- and each round takes one byte at least; the loop that retries a batch (`write_batch`) has the number of
-- its attempts. All other loops are recursions on their data. Byte limits
-- are arguments of the previews; src/proxy.rs calls them at 1 MiB.
--
-- Not modelled: the HTTP server and client, SQL as text, clocks and random names (arguments), tracing,
-- the rest of the administration API, the console's own proxy handlers, configuration files and
-- the web console. A call whose future is dropped at a wait is modelled in its audit event only.
pub mod Prelude
pub mod Json
pub mod Errors
pub mod Text
pub mod External
pub mod Provider
pub mod Balancer
pub mod Upkeep
pub mod Database
pub mod Maintain
pub mod Usage
pub mod Pricing
pub mod Sse
pub mod Audit
pub mod Images
pub mod Headers
pub mod Keys
pub mod Transform
pub mod Oauth
pub mod Serving
pub mod Writer
pub mod Access
pub mod Examples
