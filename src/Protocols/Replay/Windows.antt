-- ===== src/Protocols/Replay/Windows.antt =====
-- Which windows are accepted.
use nipo_science.Prelude.{
  All, IsIncreasingFrom, List, [], any, arith, distinct, false, increasing_iff, ltb, nat_eq,
  ne→path, ok, ok-injective, raise_if-eq-ok, refl, sorted, sym, text_eq, uuid_pair_eq,
  uuid_triple_eq, ℕ, ◌!=◌, ◌↔◌, ◌∷◌, ◌≡◌, ◌≤◌,
}
use nipo_science.Protocols.ApprovalStore.AtMostOnce.{kept}
use nipo_science.Protocols.Models.{
  approval_binding_eq, approval_status_eq, execution_status_eq, run_status_eq, sequences,
}
use nipo_science.Protocols.Replay.{RunEventWindow, new_window, starts_before}
use nipo_science.Protocols.Run.Laws.{tenant_iff}

-- The events are of one run, increase strictly and start no earlier than the oldest kept sequence.
pub record IsWindow (w : RunEventWindow) : Type 0 where
  pub first : 1 ≤ w.oldest_available_sequence
  pub tenant : All (λ event. event.run_id ≡ w.run_id) w.events
  pub order : IsIncreasingFrom w.oldest_available_sequence (sequences w.events)

retained_iff :
    (oldest : ℕ) (xs : List ℕ)
    → ((starts_before oldest xs ≡ false) × IsIncreasingFrom 0 xs) ↔ IsIncreasingFrom oldest xs
retained_iff oldest [] = (λ h. tt, λ h. (refl, tt))
retained_iff oldest (x ∷ xs) =
    (λ h. (ground (arith, h.0), h.1.1), λ h. (ground (arith, h.0), (omega arith, h.1)))

-- A window is accepted, unchanged, exactly if it is well formed.
pub new_window_iff : (w v : RunEventWindow) → (new_window w ≡ ok v) ↔ ((v ≡ w) × IsWindow w)
unfolding new_window
new_window_iff w v = (
  λ h.
      let (first, h1) = raise_if-eq-ok (ltb w.oldest_available_sequence 1) _ _ h in
      let (tenant, h2) = raise_if-eq-ok (any (λ event. event.run_id != w.run_id) w.events) _ _ h1 in
      let (order, h3) =
        raise_if-eq-ok (sequences w.events != sorted (distinct (sequences w.events))) _ _ h2 in
      let (kept, h4) =
        raise_if-eq-ok (starts_before w.oldest_available_sequence (sequences w.events)) _ _ h3 in
      (
        sym (ok-injective h4),
        record {
          first = ground (arith, first);
          tenant = (tenant_iff w.run_id w.events).0 tenant;
          order =
              (retained_iff w.oldest_available_sequence (sequences w.events)).0
                (kept, (increasing_iff (sequences w.events)).0 (sym (ne→path _ _ order)));
        },
      ),
  λ (same, good).
      let parts = (retained_iff w.oldest_available_sequence (sequences w.events)).1 good.order in
      rw ((tenant_iff w.run_id w.events).1 good.tenant) (
        ground (arith, good.first, parts.0, (increasing_iff (sequences w.events)).1 parts.1, same)),
)
