-- ===== src/Artifacts/FileRecovery/Refinement.antt =====
-- Any sequence of calls on the files, against the same calls on the process-local maps.
use nipo_science.Artifacts.FileRecovery.{
  Files, RecordCodec, RecoveryFailure, file_claim_output, file_claim_pending, file_discard_pending,
  file_finalize_claim, file_register_output, file_release_claim, file_save_completed,
}
use nipo_science.Artifacts.FileRecovery.Claims.{
  discard-Agrees, finalize-Agrees, release-Agrees, save-Agrees,
}
use nipo_science.Artifacts.FileRecovery.Outputs.{claim-Agrees, prepare-Agrees, register-Agrees}
use nipo_science.Artifacts.FileRecovery.Records.{Agrees, IsCodec, Mirrors}
use nipo_science.Artifacts.Models.{WatcherClaim}
use nipo_science.Artifacts.Recovery.{
  Recovery, claim_output, claim_pending, discard_pending, finalize_claim, register_output,
  release_claim, save_completed,
}
use nipo_science.Artifacts.Recovery.Fences.{
  Call, claim, discard, finalize, perform, perform_all, prepare, reference_of, register, release,
  save,
}
use nipo_science.Prelude.{
  All, Bool, Bytes, List, Option, Result, Sha256, Text, [], ap, err, false, if◌then◌else◌, ok, refl,
  true, ◌∷◌, ◌≡◌,
}

-- What a call of either authority returns.
pub data Answer : Type 0 where
  told : Bool → Answer
  handed : Option WatcherClaim → Answer

abbrev pub answered :
    {A J : Type 0}
    → (A → Answer)
    → Result RecoveryFailure A × Files J
    → Result RecoveryFailure Answer × Files J
answered f (ok a, files) = (ok (f a), files)
answered f (err e, files) = (err e, files)

unfoldable pub answer_of : (Bytes → Sha256) → Call → Recovery → Answer
answer_of sha256 (register output) r = told (register_output output r).0
answer_of sha256 (claim scope execution reference token) r =
    handed (claim_output sha256 scope execution reference token r).0
answer_of sha256 (prepare scope execution commit) r =
    told (claim_pending sha256 scope execution commit r).0
answer_of sha256 (release c) r = told (release_claim c r).0
answer_of sha256 (finalize c) r = told (finalize_claim c r).0
answer_of sha256 (save commit) r = told (save_completed commit r).0
answer_of sha256 (discard commit) r = told (discard_pending commit r).0

unfoldable pub answers_of : (Bytes → Sha256) → List Call → Recovery → List Answer
answers_of sha256 [] r = []
answers_of sha256 (c ∷ cs) r = answer_of sha256 c r ∷ answers_of sha256 cs (perform sha256 c r)

module _ {J : Type 0} (codec : RecordCodec J) where
  unfoldable pub file_perform : Call → Files J → Result RecoveryFailure Answer × Files J
  file_perform (register output) files = answered told (file_register_output codec output files)
  file_perform (claim scope execution reference token) files =
      answered handed (file_claim_output codec scope execution reference token files)
  file_perform (prepare scope execution commit) files =
      answered told (file_claim_pending codec scope execution commit files)
  file_perform (release c) files = answered told (file_release_claim codec c files)
  file_perform (finalize c) files = answered told (file_finalize_claim codec c files)
  file_perform (save commit) files = answered told (file_save_completed codec commit files)
  file_perform (discard commit) files = answered told (file_discard_pending codec commit files)

  abbrev has_returned : Result RecoveryFailure Answer → Bool
  has_returned (ok a) = true
  has_returned (err e) = false

  -- Calls one after another, whether or not one raises: the files, the calls that returned, and
  -- their answers.
  unfoldable pub file_perform_all : List Call → Files J → Files J
  file_perform_all [] files = files
  file_perform_all (c ∷ cs) files = file_perform_all cs (file_perform c files).1

  unfoldable pub served : List Call → Files J → List Call
  served [] files = []
  served (c ∷ cs) files =
      let rest = served cs (file_perform c files).1 in
      if has_returned (file_perform c files).0 then c ∷ rest else rest

  abbrev with_answer : Result RecoveryFailure Answer → List Answer → List Answer
  with_answer (ok a) later = a ∷ later
  with_answer (err e) later = later

  unfoldable pub file_answers : List Call → Files J → List Answer
  file_answers [] files = []
  file_answers (c ∷ cs) files =
      with_answer (file_perform c files).0 (file_answers cs (file_perform c files).1)

  -- An output that is registered carries the digest of its payload.
  abbrev pub IsHonest : Call → Type 0
  IsHonest (register output) = codec.sha256 output.payload ≡ output.content_sha256
  IsHonest (claim scope execution reference token) = Unit
  IsHonest (prepare scope execution commit) = Unit
  IsHonest (release c) = Unit
  IsHonest (finalize c) = Unit
  IsHonest (save commit) = Unit
  IsHonest (discard commit) = Unit

  answered-Agrees :
      {A : Type 0} (f : A → Answer) (k : Text) (files : Files J)
      (m : Result RecoveryFailure A × Files J) (n : A × Recovery)
      → Agrees codec k files m n
      → Agrees codec k files (answered f m) (f n.0, n.1)
  answered-Agrees f k files (ok a, files') n (same, mirrors) = (ap f same, mirrors)
  answered-Agrees f k files (err e, files') n kept_so = kept_so

  module _ (law : IsCodec codec) where
    -- A call on the file authority gives the answer of the process-local one, and its files hold the
    -- new maps; it raises only when the record of the new state is too large, and the files stay.
    pub perform-Agrees :
        (c : Call) (files : Files J) (r : Recovery)
        → IsHonest c
        → Mirrors codec files r
        → Agrees codec
            (reference_of c)
            files
            (file_perform c files)
            (answer_of codec.sha256 c r, perform codec.sha256 c r)
    unfolding file_perform answer_of perform
    perform-Agrees (register o) files r honest mirrors =
        answered-Agrees told o.reference files _ _
          (register-Agrees codec law o files r mirrors honest)
    perform-Agrees (claim scope execution k t) files r honest mirrors =
        answered-Agrees handed k files _ _
          (claim-Agrees codec law scope execution k t files r mirrors)
    perform-Agrees (prepare scope execution p) files r honest mirrors =
        answered-Agrees told p.claim.reference files _ _
          (prepare-Agrees codec law scope execution p files r mirrors)
    perform-Agrees (release c) files r honest mirrors =
        answered-Agrees told c.reference files _ _ (release-Agrees codec law c files r mirrors)
    perform-Agrees (finalize c) files r honest mirrors =
        answered-Agrees told c.reference files _ _ (finalize-Agrees codec law c files r mirrors)
    perform-Agrees (save p) files r honest mirrors =
        answered-Agrees told p.claim.reference files _ _ (save-Agrees codec law p files r mirrors)
    perform-Agrees (discard p) files r honest mirrors =
        answered-Agrees told p.claim.reference files _ _
          (discard-Agrees codec law p files r mirrors)

    -- What a list of calls did, when the first one is served or not.
    joined_calls :
        (c : Call) (more : List Call) (answers : List Answer) (files final : Files J) (r : Recovery)
        (out : Result RecoveryFailure Answer × Files J)
        → Mirrors codec files r
        → Agrees codec
            (reference_of c)
            files
            out
            (answer_of codec.sha256 c r, perform codec.sha256 c r)
        → ((r' : Recovery)
            → Mirrors codec out.1 r'
            → (answers ≡ answers_of codec.sha256 more r')
              × Mirrors codec final (perform_all codec.sha256 more r'))
        → (with_answer out.0 answers
            ≡ answers_of codec.sha256 (if has_returned out.0 then c ∷ more else more) r)
          × Mirrors codec final
              (perform_all codec.sha256 (if has_returned out.0 then c ∷ more else more) r)
    unfolding answers_of perform_all
    joined_calls c more answers files final r (ok a, files') mirrors (same, now) rest =
        let (told_so, held) = rest (perform codec.sha256 c r) now in (rw (same, told_so) refl, held)
    joined_calls c more answers files final r (err e, files') mirrors (kept_so, large) rest =
        rest r (rw kept_so mirrors)

    -- On files that hold the maps, and for calls whose registered outputs carry the digest of their
    -- payload, the answers and the state that the calls leave are those of the process-local
    -- authority on the calls that did not raise.
    pub file_perform_all-Mirrors :
        (cs : List Call) (files : Files J) (r : Recovery)
        → All IsHonest cs
        → Mirrors codec files r
        → (file_answers cs files ≡ answers_of codec.sha256 (served cs files) r)
          × Mirrors codec (file_perform_all cs files) (perform_all codec.sha256 (served cs files) r)
    unfolding file_perform_all served file_answers answers_of perform_all
    file_perform_all-Mirrors [] files r honest mirrors = (refl, mirrors)
    file_perform_all-Mirrors (c ∷ cs) files r (first_honest, honest) mirrors =
        joined_calls c (served cs (file_perform c files).1)
          (file_answers cs (file_perform c files).1) files
          (file_perform_all cs (file_perform c files).1) r (file_perform c files) mirrors
          (perform-Agrees c files r first_honest mirrors)
          (λ r' now. file_perform_all-Mirrors cs (file_perform c files).1 r' honest now)
