-- ===== src/Protocols/Execution/Leases.antt =====
-- Leases: how they are granted and how heartbeats keep them alive.
use nipo_science.Prelude.{
  List, Result, Timestamp, [], arith, err, ok, refl, ℕ, ◌+◌, ◌<◌, ◌>>=◌, ◌↔◌, ◌∷◌, ◌≡◌, ◌≤◌,
}
use nipo_science.Protocols.Execution.{heartbeat_execution, lease_execution}
use nipo_science.Protocols.Models.{ExecutionLease, ExecutionRecord, ExecutionStatus}
use nipo_science.Protocols.Run.{ProtocolError}

-- A lease is granted exactly to a running execution with a token of at least 1; it carries the
-- execution's id and token and ends 45 seconds later.
pub lease_execution_iff :
    (execution : ExecutionRecord) (t : Timestamp) (lease : ExecutionLease)
    → (lease_execution execution t ≡ ok lease) ↔ (
        (execution.status ≡ ExecutionStatus.running)
        × (1 ≤ execution.attempt_token)
        × (lease ≡ record {
          execution_id = execution.id;
          attempt_token = execution.attempt_token;
          heartbeat_at = t;
          expires_at = t + 45000000;
        }))
unfolding lease_execution
lease_execution_iff execution t lease = (λ h. ground arith, λ h. ground arith)

-- The heartbeats of one worker, in order; the first refusal stops.
unfoldable pub heartbeats :
    ExecutionLease → ℕ → List Timestamp → Result ProtocolError ExecutionLease
heartbeats lease token [] = ok lease
heartbeats lease token (t ∷ ts) = do
  renewed ← heartbeat_execution lease token t
  heartbeats renewed token ts

-- Each time is before the deadline, which the time then moves 45 seconds past itself.
abbrev pub InTime : Timestamp → List Timestamp → Type 0
InTime deadline [] = Unit
InTime deadline (t ∷ ts) = (t < deadline) × InTime (t + 45000000) ts

abbrev pub renewed_at : ExecutionLease → Timestamp → ExecutionLease
renewed_at lease t = record lease { heartbeat_at = t; expires_at = t + 45000000 }

-- One heartbeat succeeds exactly with the lease's token and before it ends.
heartbeat_iff :
    (lease : ExecutionLease) (token : ℕ) (t : Timestamp) (renewed : ExecutionLease)
    → 1 ≤ lease.attempt_token
    → (heartbeat_execution lease token t ≡ ok renewed)
      ↔ ((token ≡ lease.attempt_token) × (t < lease.expires_at) × (renewed ≡ renewed_at lease t))
unfolding heartbeat_execution
heartbeat_iff lease token t renewed pos = (λ h. ground arith, λ h. ground arith)

-- The lease after heartbeats at the times.
abbrev pub renewed_through : ExecutionLease → List Timestamp → ExecutionLease
renewed_through lease [] = lease
renewed_through lease (t ∷ ts) = renewed_through (renewed_at lease t) ts

-- A worker with the lease's token keeps it through heartbeats that are each in time.
pub heartbeats_renewed :
    (lease : ExecutionLease) (ts : List Timestamp)
    → 1 ≤ lease.attempt_token
    → InTime lease.expires_at ts
    → heartbeats lease lease.attempt_token ts ≡ ok (renewed_through lease ts)
unfolding heartbeats
heartbeats_renewed lease [] pos h = refl
heartbeats_renewed lease (t ∷ ts) pos h =
    rw ((heartbeat_iff lease lease.attempt_token t (renewed_at lease t) pos).1 (refl, h.0, refl))
      (heartbeats_renewed (renewed_at lease t) ts pos h.1)

heartbeats_kept :
    (lease : ExecutionLease) (token t : ℕ) (ts : List Timestamp)
    (r : Result ProtocolError ExecutionLease) {final : ExecutionLease}
    → 1 ≤ lease.attempt_token
    → heartbeat_execution lease token t ≡ r
    → (r >>= λ renewed. heartbeats renewed token ts) ≡ ok final
    → (token ≡ lease.attempt_token)
      × (t < lease.expires_at)
      × (heartbeats (renewed_at lease t) token ts ≡ ok final)
heartbeats_kept lease token t ts (ok renewed) pos e h =
    let (same, before, shape) = (heartbeat_iff lease token t renewed pos).0 e in
    (same, before, rw shape at h)
heartbeats_kept lease token t ts (err x) pos e h = absurd (cc)

-- A worker whose heartbeats, at least one, all succeed holds the lease's token, and each was in
-- time.
pub heartbeats-InTime :
    (lease : ExecutionLease) (token t : ℕ) (ts : List Timestamp) {final : ExecutionLease}
    → 1 ≤ lease.attempt_token
    → heartbeats lease token (t ∷ ts) ≡ ok final
    → (token ≡ lease.attempt_token) × InTime lease.expires_at (t ∷ ts)
unfolding heartbeats
heartbeats-InTime lease token t [] pos h =
    let (same, before, rest) = heartbeats_kept lease token t [] _ pos refl h in (same, (before, tt))
heartbeats-InTime lease token t (u ∷ us) pos h =
    let (same, before, rest) = heartbeats_kept lease token t (u ∷ us) _ pos refl h in
    (same, (before, (heartbeats-InTime (renewed_at lease t) token u us pos rest).1))
