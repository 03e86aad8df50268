-- ===== src/Writer/Expiry.antt =====
-- src/audit.rs: `delete_expired`, the clean-up of the archive.
use open_ai_lb.Prelude.{ℕ, ◌-◌, List, [], ◌∷◌, if◌then◌else◌, length}
use open_ai_lb.Prelude.Int.{ℤ, ◌-ℤ◌, times, wrap, ltb_ℤ}
use open_ai_lb.Writer.{RequestArchive}

-- `delete_expired`, with the number of the deleted rows.
abbrev cutoff : ℤ → ℤ → ℤ
cutoff retention_days now = wrap (now -ℤ wrap (times retention_days 86400))

unfoldable pub keep_recent : ℤ → List RequestArchive → List RequestArchive
keep_recent limit [] = []
keep_recent limit (a ∷ archives) =
    let rest = keep_recent limit archives in if ltb_ℤ a.created_at limit then rest else a ∷ rest

unfoldable pub delete_expired : List RequestArchive → ℤ → ℤ → List RequestArchive × ℕ
unfolding keep_recent
delete_expired archives retention_days now =
    let kept = keep_recent (cutoff retention_days now) archives in
    (kept, length archives - length kept)
