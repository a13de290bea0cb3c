-- ===== src/Protocols/ApprovalStore/Consumes.antt =====
-- What one consumption does.
use nipo_science.Artifacts.Recovery.{fresh}
use nipo_science.Artifacts.Watcher.{execution_key_eq, found}
use nipo_science.Prelude.{
  Option, Result, add, arith, err, false, get, mem, nat_eq, none, ok, optional_text_eq, put, refl,
  some, text_eq, uuid_pair_eq, uuid_triple_eq, ◌>>=◌, ◌↔◌, ◌≡◌,
}
use nipo_science.Protocols.Approval.{
  ApprovalConsumeCommand, ApprovalError, Digests, validated_approval_consumption,
}
use nipo_science.Protocols.Approval.Consumption.{Matches, spent, validated_approval_consumption_iff}
use nipo_science.Protocols.ApprovalStore.{
  Store, compare_and_consume, consume_found, record_consumed, spend,
}
use nipo_science.Protocols.Models.{
  ApprovalRecord, approval_binding_eq, approval_status_eq, execution_status_eq, run_status_eq,
}

-- What a successful consumption of the approval says.
abbrev pub Consumed :
    Digests → Store → ApprovalConsumeCommand → ApprovalRecord → ApprovalRecord → Store → Type 0
Consumed digests store c approval done after =
    Matches digests approval c
    × (mem approval.digest store.consumed_digests ≡ false)
    × (mem (digests.binding_json approval.binding) store.consumed_bindings ≡ false)
    × (done ≡ spent approval)
    × (after ≡ record {
      records = put approval.id (spent approval) store.records;
      consumed_digests = add approval.digest store.consumed_digests;
      consumed_bindings = add (digests.binding_json approval.binding) store.consumed_bindings;
    })

spend_parts :
    (digests : Digests) (store : Store) (approval : ApprovalRecord) {done : ApprovalRecord}
    {after : Store}
    → spend digests store approval (spent approval) ≡ ok (done, after)
    → (mem approval.digest store.consumed_digests ≡ false)
      × (mem (digests.binding_json approval.binding) store.consumed_bindings ≡ false)
      × (done ≡ spent approval)
      × (after ≡ record_consumed digests store approval (spent approval))
unfolding spend
spend_parts digests store approval h = ground arith

validated_parts :
    (digests : Digests) (store : Store) (c : ApprovalConsumeCommand) (approval : ApprovalRecord)
    (r : Result ApprovalError ApprovalRecord) {done : ApprovalRecord} {after : Store}
    → validated_approval_consumption digests approval c ≡ r
    → (r >>= spend digests store approval) ≡ ok (done, after)
    → Consumed digests store c approval done after
validated_parts digests store c approval (ok x) e h =
    let (match, shape) = (validated_approval_consumption_iff digests approval c x).0 e in
    let (fresh, unused, result, state) = spend_parts digests store approval (rw shape at h) in
    (match, fresh, unused, result, state)
validated_parts digests store c approval (err x) e h = absurd (cc)

Consumed-parts :
    (digests : Digests) (store : Store) (c : ApprovalConsumeCommand) (o : Option ApprovalRecord)
    {done : ApprovalRecord} {after : Store}
    → consume_found digests store o c ≡ ok (done, after)
    → (approval : ApprovalRecord) × (o ≡ some approval)
      × Consumed digests store c approval done after
unfolding consume_found
Consumed-parts digests store c none h = absurd (cc)
Consumed-parts digests store c (some approval) h =
    (approval, refl, validated_parts digests store c approval _ refl h)

-- A consumption succeeds exactly when the stored approval matches the command and neither its
-- digest nor its binding has been consumed; it puts the approval, consumed and at its next
-- revision, under its id, adds its digest and its binding to the used ones, and returns it.
pub compare_and_consume_iff :
    (digests : Digests) (store : Store) (c : ApprovalConsumeCommand) (done : ApprovalRecord)
    (after : Store)
    → (compare_and_consume digests store c ≡ ok (done, after)) ↔ (
        (approval : ApprovalRecord) × (get c.approval_id store.records ≡ some approval)
        × Consumed digests store c approval done after)
unfolding compare_and_consume spend
compare_and_consume_iff digests store c done after = (
  λ h. Consumed-parts digests store c (get c.approval_id store.records) h,
  λ (approval, found, (match, fresh, unused, shape, rest)). rw found (
      rw ((validated_approval_consumption_iff digests approval c (spent approval)).1 (match, refl))
        (rw (fresh, unused, shape, rest) refl)),
)
