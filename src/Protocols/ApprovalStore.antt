-- ===== src/Protocols/ApprovalStore.antt =====
-- protocols/approval_store.py: the in-memory store that consumes approvals at most once. Its lock
-- makes each call one step.
pub mod Consumes
pub mod AtMostOnce
use nipo_science.Prelude.{
  Dict, List, Option, Result, Sha256, Text, Uuid, [], add, err, get, if◌then◌else◌, length, mem,
  nat_eq, none, ok, put, raise_if, some, text_eq, uuid_pair_eq, uuid_triple_eq, ◌!=◌, ◌==◌, ◌>>=◌,
  ◌>>◌, ◌||◌, ◌∷◌,
}
use nipo_science.Protocols.Approval.{
  ApprovalConsumeCommand, ApprovalError, Digests, approval_already_consumed, approval_duplicate_id,
  approval_id_mismatch, validated_approval_consumption,
}
use nipo_science.Protocols.Models.{
  ApprovalRecord, approval_binding_eq, approval_status_eq, consumed, execution_status_eq,
  run_status_eq,
}

pub record Store : Type 0 where
  pub records : Dict Uuid ApprovalRecord
  pub consumed_digests : List Sha256
  pub consumed_bindings : List Text

-- `{approval.id: approval for approval in records}`, on top of a dict.
unfoldable pub index_records :
    Dict Uuid ApprovalRecord → List ApprovalRecord → Dict Uuid ApprovalRecord
unfolding put
index_records records [] = records
index_records records (approval ∷ approvals) =
    index_records (put approval.id approval records) approvals

module _ (digests : Digests) where
  unfoldable pub digests_of : List ApprovalRecord → List Sha256
  unfolding add
  digests_of [] = []
  digests_of (approval ∷ approvals) =
      let rest = digests_of approvals in
      if approval.status == consumed then add approval.digest rest else rest

  unfoldable pub bindings_of : List ApprovalRecord → List Text
  unfolding add
  bindings_of [] = []
  bindings_of (approval ∷ approvals) =
      let rest = bindings_of approvals in
      if approval.status == consumed then add (digests.binding_json approval.binding) rest else rest

  -- `InMemoryApprovalConsumptionStore(approvals)`
  unfoldable pub new_store : List ApprovalRecord → Result ApprovalError Store
  unfolding index_records digests_of bindings_of
  new_store approvals = do
    let records = index_records [] approvals
    raise_if (length records != length approvals) approval_duplicate_id
    ok (record {
      records = records;
      consumed_digests = digests_of approvals;
      consumed_bindings = bindings_of approvals;
    })

  -- The store after the records and both sets have been written.
  abbrev pub record_consumed : Store → ApprovalRecord → ApprovalRecord → Store
  record_consumed store approval done = record {
    records = put approval.id done store.records;
    consumed_digests = add done.digest store.consumed_digests;
    consumed_bindings = add (digests.binding_json done.binding) store.consumed_bindings;
  }

  -- The rest of `compare_and_consume` after the validation: the replay check and the writes.
  unfoldable pub spend :
      Store → ApprovalRecord → ApprovalRecord → Result ApprovalError (ApprovalRecord × Store)
  spend store approval done = do
    raise_if
        (mem done.digest store.consumed_digests
          || mem (digests.binding_json done.binding) store.consumed_bindings)
        approval_already_consumed
    ok (done, record_consumed store approval done)

  unfoldable pub consume_found :
      Store
      → Option ApprovalRecord
      → ApprovalConsumeCommand
      → Result ApprovalError (ApprovalRecord × Store)
  consume_found store none command = err approval_id_mismatch
  consume_found store (some approval) command = do
    done ← validated_approval_consumption digests approval command
    spend store approval done

  unfoldable pub compare_and_consume :
      Store → ApprovalConsumeCommand → Result ApprovalError (ApprovalRecord × Store)
  unfolding consume_found
  compare_and_consume store command =
      consume_found store (get command.approval_id store.records) command
