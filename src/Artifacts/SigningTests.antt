-- ===== src/Artifacts/SigningTests.antt =====
-- A concrete signer, and a download that it signs, to which the theorems apply.
use nipo_science.Artifacts.Downloads.{
  DownloadClaims, SignedDownload, content, expires_ms, issue_download, min, read_version,
  redeem_download, refused,
}
use nipo_science.Artifacts.Models.{
  ArtifactScope, ArtifactVersion, download_expired, draft_eq, optional_uuid_eq, optional_version_eq,
  output_eq, reconciliation_eq, scope_eq, version_eq,
}
use nipo_science.Artifacts.Signing.{
  SigningCodec, decode_text, dot, encode, equals_signs, issue, missing, rstrip, verify,
}
use nipo_science.Artifacts.Signing.Redeemed.{claims_for, redeem-issue_download}
use nipo_science.Artifacts.Signing.Tokens.{IsSigningCodec, signature_of, verify-eq-ok, verify-issue}
use nipo_science.Artifacts.Store.{
  project_archived, Platform, Store, empty, project_archived, version,
}
use nipo_science.Prelude.{
  Bytes, Option, Text, UuidPair-discrete, [], ap, arith, codes, err, false, get, if◌then◌else◌, leb,
  length, ltb, mem, nat_eq, none, ok, optional_text_eq, refl, some, suc, text_eq, uuid_pair_eq,
  uuid_triple_eq, zero, ℕ, ℕ_discrete, ◌++◌, ◌+◌, ◌-◌, ◌/◌, ◌<◌, ◌∷◌, ◌≡◌,
}

-- Bytes as characters beyond the dot and the equals sign.
abbrev shifted : Bytes → Text
shifted [] = []
shifted (x ∷ bytes) = (x + 100) ∷ shifted bytes

abbrev unshifted : Text → Bytes
unshifted [] = []
unshifted (c ∷ text) = let rest = unshifted text in if ltb c 100 then rest else (c - 100) ∷ rest

abbrev numbers : DownloadClaims → Bytes
numbers c = c.org_id ∷ c.project_id ∷ c.version_id ∷ c.expires_unix_ms ∷ []

abbrev claims_of : Bytes → Option DownloadClaims
claims_of (a ∷ b ∷ c ∷ d ∷ []) =
    some (record { org_id = a; project_id = b; version_id = c; expires_unix_ms = d })
claims_of other = none

abbrev shifting : SigningCodec
shifting = record {
  urlsafe_b64encode = shifted;
  b64decode = λ text. some (unshifted text);
  utf8 = λ text. text;
  hmac_digest = λ bytes. length bytes ∷ [];
  dump_json = numbers;
  validate_json = claims_of;
  unix_ms = λ t. t / 1000;
}

rstrip-shifted : (bytes : Bytes) → rstrip (shifted bytes) ≡ shifted bytes
unfolding rstrip
rstrip-shifted [] = refl
rstrip-shifted (x ∷ bytes) = ground (arith, rstrip-shifted bytes)

padding_gone : (n : ℕ) → unshifted (equals_signs n) ≡ []
unfolding equals_signs
padding_gone zero = refl
padding_gone (suc n) = ground (arith, padding_gone n)

unshifted-padded : (bytes : Bytes) (n : ℕ) → unshifted (shifted bytes ++ equals_signs n) ≡ bytes
unshifted-padded [] n = padding_gone n
unshifted-padded (x ∷ bytes) n = ground (arith, unshifted-padded bytes n)

shifted-undotted : (bytes : Bytes) → mem dot (shifted bytes) ≡ false
unfolding mem
shifted-undotted [] = refl
shifted-undotted (x ∷ bytes) = ground (arith, shifted-undotted bytes)

shifting-decodes : (value : Bytes) → decode_text shifting (encode shifting value) ≡ some value
unfolding decode_text encode
shifting-decodes value =
    rw (rstrip-shifted value) (ap some (unshifted-padded value (missing (length (shifted value)))))

abbrev shifting-IsSigningCodec : IsSigningCodec shifting
shifting-IsSigningCodec = record {
  decodes = shifting-decodes;
  undotted = shifted-undotted;
  reads_back = λ claims. refl;
}

abbrev platform : Platform
platform = record { sha256 = λ b. b; uuid_text = λ u. u ∷ [] }

abbrev scope : ArtifactScope
scope = record { org_id = 1; project_id = 2; requester_id = 3 }

abbrev row : ArtifactVersion
row = record {
  id = 11;
  org_id = 1;
  project_id = 2;
  artifact_id = 4;
  version_no = 1;
  object_key = 8 ∷ 9 ∷ [];
  content_sha256 = 8 ∷ 9 ∷ [];
  size_bytes = 2;
  media_type = codes "text/csv";
  producing_execution_id = 7;
  environment_sha256 = [];
  code_sha256 = [];
  runtime_adapter_id = 6 ∷ [];
  runtime_connection_id = 8;
  skill_content_hashes = [];
  source_hashes = [];
  input_version_ids = [];
  created_at = 9;
}

abbrev shelf : Store
shelf = record (empty ((1, 2) ∷ []) []) {
  versions = ((1, 11), row) ∷ [];
  blobs = (8 ∷ 9 ∷ [], 8 ∷ 9 ∷ []) ∷ [];
}

abbrev download : SignedDownload
download = record {
  token = issue shifting (claims_for scope 11 5000000 1234);
  expires_at = 5002000;
}

issues : issue_download (issue shifting) scope 11 5000000 1234 shelf ≡ ok download
unfolding issue_download read_version version expires_ms min project_archived get mem ℕ_discrete
    UuidPair-discrete
issues = refl

redeem-issue_download_example :
    redeem_download (verify shifting) platform scope download.token 4000000 shelf ≡ (
      if leb (expires_ms 1234 5000000) (shifting.unix_ms 4000000)
      then err (refused download_expired)
      else content platform scope 11 shelf)
redeem-issue_download_example =
    redeem-issue_download shifting shifting-IsSigningCodec platform scope 11 5000000 1234 4000000
      shelf shelf download issues

abbrev claims : DownloadClaims
claims = record { org_id = 1; project_id = 2; version_id = 11; expires_unix_ms = 5002 }

verifies : verify shifting (issue shifting claims) 4000000 ≡ ok claims
verifies = verify-issue shifting shifting-IsSigningCodec claims 4000000

verify-eq-ok_example :
    (payload : Text) × (issue shifting claims ≡ payload ++ dot ∷ signature_of shifting payload)
    × ((bytes : Bytes) × (encode shifting bytes ≡ payload) × (claims_of bytes ≡ some claims))
    × (4000 < 5002)
verify-eq-ok_example = verify-eq-ok shifting (issue shifting claims) 4000000 verifies
