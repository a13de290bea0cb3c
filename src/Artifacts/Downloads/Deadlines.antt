-- ===== src/Artifacts/Downloads/Deadlines.antt =====
-- How long an issued download lives, and what a redeemed one returns.
use nipo_science.Artifacts.Downloads.{
  DownloadClaims, SignedDownload, expires_ms, issue_download, max_download_ttl, min, read_version,
}
use nipo_science.Artifacts.Models.{ArtifactScope}
use nipo_science.Artifacts.Store.{Store, project_archived}
use nipo_science.Prelude.{Text, Timestamp, Uuid, arith, ok, ℕ, ◌%◌, ◌*◌, ◌+◌, ◌<◌, ◌≡◌, ◌≤◌}

-- The parts of an issued download: all guards passed, and the deadline was computed from the clock.
issued_parts :
    (sign : DownloadClaims → Text) (scope : ArtifactScope) (id : Uuid) (ttl : ℕ) (now : Timestamp)
    (store : Store) {d : SignedDownload}
    → issue_download sign scope id ttl now store ≡ ok d
    → (ttl % 1000 ≡ 0)
      × (1000 ≤ ttl)
      × (ttl ≤ max_download_ttl)
      × (d.expires_at ≡ expires_ms now ttl * 1000)
unfolding issue_download read_version project_archived
issued_parts sign scope id ttl now store h = ground arith

-- The deadline is at most ten minutes away, less than one millisecond from the lifetime asked for,
-- and later than the present.
expires_ms_lem :
    (now ttl : ℕ)
    → ttl % 1000 ≡ 0
    → 1000 ≤ ttl
    → ttl ≤ max_download_ttl
    → (expires_ms now ttl * 1000 ≤ now + max_download_ttl)
      × (now + ttl < expires_ms now ttl * 1000 + 1000)
      × (expires_ms now ttl * 1000 < now + ttl + 1000)
      × (now < expires_ms now ttl * 1000)
unfolding expires_ms min
expires_ms_lem now ttl whole low high = ground arith

-- An issued download expires after the present and at most ten minutes from it, within one
-- millisecond of the lifetime asked for, whatever the clock reads.
pub issue_download_bounds :
    (sign : DownloadClaims → Text) (scope : ArtifactScope) (id : Uuid) (ttl : ℕ) (now : Timestamp)
    (store : Store) {d : SignedDownload}
    → issue_download sign scope id ttl now store ≡ ok d
    → (d.expires_at ≤ now + max_download_ttl)
      × (now + ttl < d.expires_at + 1000)
      × (d.expires_at < now + ttl + 1000)
      × (now < d.expires_at)
issue_download_bounds sign scope id ttl now store {d} h =
    let (whole, low, high, same) = issued_parts sign scope id ttl now store h in
    rw same (expires_ms_lem now ttl whole low high)
