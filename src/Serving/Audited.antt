-- ===== src/Serving/Audited.antt =====
-- src/proxy.rs: the event that a call of `handle_json` leaves in the audit queue.
use open_ai_lb.Serving.Unended.{Unended}
