-- ===== src/Artifacts/Catalogue.antt =====
-- services/api/artifacts/service.py: `create_artifact`, `read_artifact`, `lineage` and
-- `attach_session`. Identifiers and the clock are arguments; which characters are white space is a
-- parameter.
pub mod Entries
use nipo_science.Artifacts.Downloads.{ServiceError, refused, require_created}
use nipo_science.Artifacts.Models.{
  ArtifactErrorCode, ArtifactRecord, ArtifactScope, SessionArtifactLink, draft_eq, optional_uuid_eq,
  optional_version_eq, output_eq, reconciliation_eq, scope_eq, version_eq,
}
use nipo_science.Artifacts.Store.{
  Store, artifact, attach_session, create_artifact, lineage, require_some,
}
use nipo_science.Prelude.{
  Bool, List, Result, Text, Timestamp, Uuid, [], err, false, if◌then◌else◌, length, ltb, nat_eq, ok,
  optional_text_eq, text_eq, true, uuid_pair_eq, uuid_triple_eq, ℕ, ◌++◌, ◌==◌, ◌>>◌, ◌||◌, ◌∷◌,
}

-- `" ".join(words)`, which puts a space before every word but the first.
unfoldable pub spaced : List Text → Text
spaced [] = []
spaced (word ∷ words) = 32 ∷ word ++ spaced words

abbrev pub joined : List Text → Text
joined [] = []
joined (word ∷ words) = word ++ spaced words

-- A character put before the first word, or a word of its own.
abbrev pub begin_word : ℕ → Bool → List Text → List Text
begin_word c true words = (c ∷ []) ∷ words
begin_word c false [] = (c ∷ []) ∷ []
begin_word c false (word ∷ words) = (c ∷ word) ∷ words

abbrev pub max_artifact_name : ℕ
max_artifact_name = 255

module _ (is_space : ℕ → Bool) where
  -- The next character is white space, or there is none.
  abbrev pub ends_word : Text → Bool
  ends_word [] = true
  ends_word (c ∷ text) = is_space c

  -- `text.split()`
  unfoldable pub split_words : Text → List Text
  split_words [] = []
  split_words (c ∷ text) =
      let rest = split_words text in if is_space c then rest else begin_word c (ends_word text) rest

  unfoldable pub create_named :
      ArtifactScope → Text → Uuid → Timestamp → Store → Result ServiceError ArtifactRecord × Store
  create_named scope name id now store =
      let normalized = joined (split_words name) in
      if normalized == [] || ltb max_artifact_name (length normalized)
      then (err (refused ArtifactErrorCode.not_found), store)
      else let entry : ArtifactRecord = record {
        id = id;
        org_id = scope.org_id;
        project_id = scope.project_id;
        name = normalized;
        created_at = now;
      } in
        let (outcome, after) = create_artifact scope entry store in
        (require_created outcome >> ok entry, after)

unfoldable pub read_artifact : ArtifactScope → Uuid → Store → Result ServiceError ArtifactRecord
read_artifact scope artifact_id store =
    require_some (artifact scope artifact_id store) (refused ArtifactErrorCode.not_found)

unfoldable pub read_lineage : ArtifactScope → Uuid → Store → Result ServiceError (List Uuid)
read_lineage scope version_id store =
    require_some (lineage scope version_id store) (refused ArtifactErrorCode.not_found)

unfoldable pub attach_link :
    ArtifactScope
    → Uuid
    → Uuid
    → Timestamp
    → Store
    → Result ServiceError SessionArtifactLink × Store
attach_link scope session_id version_id now store =
    let link : SessionArtifactLink = record {
      org_id = scope.org_id;
      project_id = scope.project_id;
      session_id = session_id;
      artifact_version_id = version_id;
      revision = 1;
      created_at = now;
    } in
    let (outcome, after) = attach_session scope link store in
    (require_created outcome >> ok link, after)
