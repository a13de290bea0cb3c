-- ===== src/Protocols/ApprovalStore/AtMostOnce.antt =====
-- Each approval, each digest and each binding is consumed at most once.
use nipo_science.Prelude.{
  All, List, Result, [], arith, err, mem, mem-add, nat_eq, ok, refl, text_eq, true, uuid_pair_eq,
  uuid_triple_eq, ◌∷◌, ◌≡◌, ◌≢◌,
}
use nipo_science.Protocols.Approval.{ApprovalConsumeCommand, ApprovalError, Digests}
use nipo_science.Protocols.ApprovalStore.{Store, compare_and_consume}
use nipo_science.Protocols.ApprovalStore.Consumes.{compare_and_consume_iff}
use nipo_science.Protocols.Models.{
  ApprovalRecord, approval_binding_eq, approval_status_eq, execution_status_eq, run_status_eq,
}

-- A refused command changes nothing; what was consumed is collected.
abbrev pub kept : Store → Result ApprovalError (ApprovalRecord × Store) → Store
kept store (ok (done, after)) = after
kept store (err e) = store

abbrev pub gained :
    Result ApprovalError (ApprovalRecord × Store) → List ApprovalRecord → List ApprovalRecord
gained (ok (done, after)) rest = done ∷ rest
gained (err e) rest = rest

-- The approvals that a sequence of commands consumes, and the store after it.
unfoldable pub serve : Digests → Store → List ApprovalConsumeCommand → List ApprovalRecord
serve digests store [] = []
serve digests store (c ∷ cs) =
    let r = compare_and_consume digests store c in gained r (serve digests (kept store r) cs)

-- None of the approvals has the digest, and none has the binding's JSON.
abbrev pub Unused : Digests → ApprovalRecord → List ApprovalRecord → Type 0
Unused digests a =
    All (λ b.
      (b.digest ≢ a.digest) × (digests.binding_json b.binding ≢ digests.binding_json a.binding))

-- Pairwise different digests and pairwise different bindings.
abbrev pub AllDistinct : Digests → List ApprovalRecord → Type 0
AllDistinct digests [] = Unit
AllDistinct digests (a ∷ rest) = Unused digests a rest × AllDistinct digests rest

-- The digest and the binding of the approval are marked as used.
abbrev pub IsUsed : Digests → Store → ApprovalRecord → Type 0
IsUsed digests store a =
    (mem a.digest store.consumed_digests ≡ true)
    × (mem (digests.binding_json a.binding) store.consumed_bindings ≡ true)

IsUsed-stays :
    (digests : Digests) (store : Store) (a : ApprovalRecord) (c : ApprovalConsumeCommand)
    (r : Result ApprovalError (ApprovalRecord × Store))
    → compare_and_consume digests store c ≡ r
    → IsUsed digests store a
    → IsUsed digests (kept store r) a
IsUsed-stays digests store a c (ok (done, after)) e used =
    let (approval, found, consumption) = (compare_and_consume_iff digests store c done after).0 e in
    rw consumption.4 (
      ground (
        arith,
        used,
        mem-add approval.digest a.digest store.consumed_digests,
        mem-add (digests.binding_json approval.binding) (digests.binding_json a.binding)
            store.consumed_bindings,
      ))
IsUsed-stays digests store a c (err x) e used = used

gained-Unused :
    (digests : Digests) (store : Store) (a : ApprovalRecord) (c : ApprovalConsumeCommand)
    (cs : List ApprovalConsumeCommand) (r : Result ApprovalError (ApprovalRecord × Store))
    → compare_and_consume digests store c ≡ r
    → IsUsed digests store a
    → Unused digests a (serve digests (kept store r) cs)
    → Unused digests a (gained r (serve digests (kept store r) cs))
gained-Unused digests store a c cs (ok (done, after)) e used rest =
    let (approval, found, consumption) = (compare_and_consume_iff digests store c done after).0 e in
    (
      rw consumption.3 (λ p. cc (used.0, consumption.1, p), λ p. cc (used.1, consumption.2, p)),
      rest,
    )
gained-Unused digests store a c cs (err x) e used rest = rest

serve-Unused :
    (digests : Digests) (store : Store) (a : ApprovalRecord) (cs : List ApprovalConsumeCommand)
    → IsUsed digests store a
    → Unused digests a (serve digests store cs)
unfolding serve
serve-Unused digests store a [] used = tt
serve-Unused digests store a (c ∷ cs) used =
    let r = compare_and_consume digests store c in
    gained-Unused digests store a c cs r refl used
      (serve-Unused digests (kept store r) a cs (IsUsed-stays digests store a c r refl used))

gained-AllDistinct :
    (digests : Digests) (store : Store) (c : ApprovalConsumeCommand)
    (cs : List ApprovalConsumeCommand) (r : Result ApprovalError (ApprovalRecord × Store))
    → compare_and_consume digests store c ≡ r
    → AllDistinct digests (serve digests (kept store r) cs)
    → AllDistinct digests (gained r (serve digests (kept store r) cs))
gained-AllDistinct digests store c cs (ok (done, after)) e rest =
    let (approval, found, consumption) = (compare_and_consume_iff digests store c done after).0 e in
    (
      serve-Unused digests after done cs (
          rw (consumption.4, consumption.3)
            (ground (
              arith,
              mem-add approval.digest approval.digest store.consumed_digests,
              mem-add (digests.binding_json approval.binding)
                  (digests.binding_json approval.binding) store.consumed_bindings,
            ))),
      rest,
    )
gained-AllDistinct digests store c cs (err x) e rest = rest

-- However many commands are served, and whatever they present, no two of the approvals that are
-- consumed share a digest, and no two share a binding.
pub serve-AllDistinct :
    (digests : Digests) (store : Store) (cs : List ApprovalConsumeCommand)
    → AllDistinct digests (serve digests store cs)
unfolding serve
serve-AllDistinct digests store [] = tt
serve-AllDistinct digests store (c ∷ cs) =
    let r = compare_and_consume digests store c in
    gained-AllDistinct digests store c cs r refl (serve-AllDistinct digests (kept store r) cs)
