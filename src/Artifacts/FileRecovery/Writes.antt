-- ===== src/Artifacts/FileRecovery/Writes.antt =====
-- The writes of the file authority, and what their records have in common with the two maps.
use nipo_science.Artifacts.FileRecovery.{
  FileRecoveryState, Files, RecordCodec, file_claimable, write_record,
}
use nipo_science.Artifacts.FileRecovery.Records.{
  Agrees, IsCodec, IsOutput, Mirrors, body_of, write_Agrees,
}
use nipo_science.Artifacts.Models.{
  ArtifactReconciliation, ArtifactScope, WatcherOutput, completed, draft_eq, optional_uuid_eq,
  optional_version_eq, output_eq, pending, reconciliation_eq, scope_eq, version_eq,
}
use nipo_science.Artifacts.Recovery.{
  OutputState, Recovery, claimable, write_and_drop, write_both, write_output,
}
use nipo_science.Artifacts.Recovery.Cells.{IsCell, IsRecovery}
use nipo_science.Prelude.{
  Bytes, Option, Sha256, Text, Uuid, ap, arith, get, get-del_ne, get-del_self, get-put_ne,
  get-put_self, inl, inr, nat_eq, none, refl, some, sym, text_eq, uuid_pair_eq, uuid_triple_eq, ◌∙◌,
  ◌≡◌,
}

-- The two tests of a claimable output agree on a cell that the maps may hold.
pub claimable_same :
    (sha256 : Bytes → Sha256) (s : OutputState) (c : Option ArtifactReconciliation)
    (scope : ArtifactScope) (execution : Uuid)
    → IsCell (some s) c
    → sha256 s.output.payload ≡ s.output.content_sha256
    → file_claimable (body_of s c) scope execution ≡ claimable sha256 s scope execution
unfolding file_claimable claimable
claimable_same sha256 s none scope execution cell digest = ground (arith, digest)
claimable_same sha256 s (some (pending p)) scope execution cell digest = ground (arith, cell)
claimable_same sha256 s (some (completed c)) scope execution cell digest = ground (arith, cell)

-- A record with a field known.
pub with_consumed :
    (o : WatcherOutput) (t u v : Option Uuid) (c d : Option ArtifactReconciliation)
    → u ≡ v
    → c ≡ d
    → ◌≡◌ {A = FileRecoveryState}
        (record { output = o; claim_token = t; consumed_token = u; reconciliation = c })
        (record { output = o; claim_token = t; consumed_token = v; reconciliation = d })
with_consumed o t u v c d same same' = rw (same, same') refl

-- What a cell of the maps says of the reconciliation.
pub unknown_cell : (c : Option ArtifactReconciliation) → IsCell none c → none ≡ c
unknown_cell none cell = refl
unknown_cell (some c) cell = absurd cell

pub idle_cell :
    (c : Option ArtifactReconciliation) (s : OutputState)
    → IsCell (some s) c
    → s.claim_token ≡ none
    → s.consumed_token ≡ none
    → c ≡ none
idle_cell none s cell h u = refl
idle_cell (some (pending p)) s cell h u = absurd (cc (cell.0, h))
idle_cell (some (completed c)) s cell h u = absurd (cc (cell.1.1, u))

-- A claimed output is not consumed.
pub unspent_cell :
    (c : Option ArtifactReconciliation) (s : OutputState) (t : Uuid)
    → IsCell (some s) c
    → s.claim_token ≡ some t
    → s.consumed_token ≡ none
unspent_cell none s t (inl u) held = absurd (cc (u, held))
unspent_cell none s t (inr u) held = u
unspent_cell (some (pending p)) s t cell held = cell.1
unspent_cell (some (completed c)) s t cell held = absurd (cc (cell.0, held))

module _ {J : Type 0} (codec : RecordCodec J) (law : IsCodec codec) where
  pub write_one :
      {A : Type 0} (k : Text) (answer : A) (body : FileRecoveryState) (s : OutputState)
      (files : Files J) (r : Recovery)
      → Mirrors codec files r
      → IsRecovery (write_output k s r)
      → IsOutput codec k s.output
      → body ≡ body_of s (get k r.reconciliations)
      → Agrees codec k files (write_record codec body answer files) (answer, write_output k s r)
  write_one k answer body s files r mirrors good own same =
      write_Agrees codec law k answer body s files r (write_output k s r) mirrors good own
        (get-put_self k s r.outputs) same (λ j other. (get-put_ne k j s r.outputs other, refl))

  pub write_two :
      {A : Type 0} (k : Text) (answer : A) (body : FileRecoveryState) (s : OutputState)
      (c : ArtifactReconciliation) (files : Files J) (r : Recovery)
      → Mirrors codec files r
      → IsRecovery (write_both k s c r)
      → IsOutput codec k s.output
      → body ≡ body_of s (some c)
      → Agrees codec k files (write_record codec body answer files) (answer, write_both k s c r)
  write_two k answer body s c files r mirrors good own same =
      write_Agrees codec law k answer body s files r (write_both k s c r) mirrors good own
        (get-put_self k s r.outputs)
        (same ∙ ap (body_of s) (sym (get-put_self k c r.reconciliations)))
        (λ j other. (get-put_ne k j s r.outputs other, get-put_ne k j c r.reconciliations other))

  pub write_drop :
      {A : Type 0} (k : Text) (answer : A) (body : FileRecoveryState) (s : OutputState)
      (files : Files J) (r : Recovery)
      → Mirrors codec files r
      → IsRecovery (write_and_drop k s r)
      → IsOutput codec k s.output
      → body ≡ body_of s none
      → Agrees codec k files (write_record codec body answer files) (answer, write_and_drop k s r)
  write_drop k answer body s files r mirrors good own same =
      write_Agrees codec law k answer body s files r (write_and_drop k s r) mirrors good own
        (get-put_self k s r.outputs)
        (same ∙ ap (body_of s) (sym (get-del_self k r.reconciliations)))
        (λ j other. (get-put_ne k j s r.outputs other, get-del_ne k j r.reconciliations other))
