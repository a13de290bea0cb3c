-- ===== src/Artifacts/FileTests.antt =====
-- A concrete codec and calls on its files, to which the refinement applies.
use nipo_science.Artifacts.FileRecovery.{
  Envelope, RecordCodec, decode, file_active_claim, file_claim_output, file_claimable,
  file_finalize_claim, file_register_output, is_oversize, read_record, recovery_record_bytes_limit,
  verify_record, write_record,
}
use nipo_science.Artifacts.FileRecovery.Records.{IsCodec, Mirrors}
use nipo_science.Artifacts.FileRecovery.Refinement.{
  answers_of, file_answers, file_perform, file_perform_all, file_perform_all-Mirrors, handed,
  served, told,
}
use nipo_science.Artifacts.Models.{
  ArtifactScope, OptionalUuid-discrete, WatcherClaim, WatcherOutput, WatcherOutput-discrete,
  draft_eq, optional_uuid_eq, optional_version_eq, output_eq, reconciliation_eq, scope_eq,
  version_eq,
}
use nipo_science.Artifacts.Recovery.{fresh}
use nipo_science.Artifacts.Recovery.Fences.{Call, perform_all, claim, register, finalize}
use nipo_science.Artifacts.Recovery.Cells.{fresh-IsRecovery}
use nipo_science.Prelude.{
  List, Text, Text-discrete, [], codes, get, nat_eq, none, optional_text_eq, put, refl, some,
  text_eq, true, uuid_pair_eq, uuid_triple_eq, ℕ_discrete, ◌∷◌, ◌≡◌,
}

-- A codec whose files hold envelopes as they are, and whose digest of a payload is the payload.
abbrev plain_codec : RecordCodec Envelope
plain_codec = record {
  sha256 = λ payload. payload;
  path = λ reference. reference;
  integrity = λ body. body.output.reference;
  dump_json = λ envelope. envelope;
  validate_json = λ envelope. some envelope;
  size = λ envelope. 100;
}

abbrev plain-IsCodec : IsCodec plain_codec
plain-IsCodec = record { reads_back = λ body. refl; apart = λ j k same. same }

abbrev reference : Text
reference = codes "output"

abbrev output : WatcherOutput
output = record {
  reference = reference;
  org_id = 1;
  project_id = 2;
  requester_id = 3;
  execution_id = 7;
  runtime_adapter_id = codes "adapter";
  runtime_connection_id = 5;
  payload = 8 ∷ 9 ∷ [];
  content_sha256 = 8 ∷ 9 ∷ [];
  media_type = codes "text/plain";
}

abbrev scope : ArtifactScope
scope = record { org_id = 1; project_id = 2; requester_id = 3 }

abbrev claim_of : WatcherClaim
claim_of = record { reference = reference; token = 4; output = output }

abbrev file_calls : List Call
file_calls =
    register output ∷ claim scope 7 reference 4 ∷ finalize claim_of ∷ claim scope 7 reference 6 ∷ []

empty-Mirrors : Mirrors plain_codec [] fresh
unfolding get
empty-Mirrors = (fresh-IsRecovery, λ k. refl)

-- The output is registered, claimed and consumed, and not claimed again.
file_answers_test :
    file_answers plain_codec file_calls []
    ≡ told true ∷ handed (some claim_of) ∷ told true ∷ handed none ∷ []
unfolding file_answers file_perform file_register_output file_claim_output file_finalize_claim
    file_claimable file_active_claim read_record decode verify_record write_record is_oversize
    recovery_record_bytes_limit get put ℕ_discrete Text-discrete OptionalUuid-discrete
    WatcherOutput-discrete
file_answers_test = refl

file_perform_all-Mirrors_example :
    (file_answers plain_codec file_calls []
      ≡ answers_of plain_codec.sha256 (served plain_codec file_calls []) fresh)
    × Mirrors plain_codec
        (file_perform_all plain_codec file_calls [])
        (perform_all plain_codec.sha256 (served plain_codec file_calls []) fresh)
file_perform_all-Mirrors_example =
    file_perform_all-Mirrors plain_codec plain-IsCodec file_calls [] fresh
      (refl, (tt, (tt, (tt, tt)))) empty-Mirrors
