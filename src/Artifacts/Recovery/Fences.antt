-- ===== src/Artifacts/Recovery/Fences.antt =====
-- Fences over any sequence of recovery calls: the maps stay well formed, a consumed output stays
-- consumed, and nothing can claim it again.
use nipo_science.Artifacts.Models.{
  ArtifactReconciliation, ArtifactScope, PendingArtifactCommit, WatcherClaim, WatcherOutput,
  completed, draft_eq, optional_uuid_eq, optional_version_eq, output_eq, pending, reconciliation_eq,
  scope_eq, version_eq,
}
use nipo_science.Artifacts.Recovery.{
  OutputState, Recovery, claim_output, claim_pending, claimable, claimed, completed_of,
  discard_pending, finalize_claim, free, register_output, release_claim, resolve_output,
  save_completed, spent, write_and_drop, write_output,
}
use nipo_science.Artifacts.Recovery.Cells.{
  IsCell, IsRecovery, write_and_drop-IsRecovery, write_both-IsRecovery, write_output-IsRecovery,
}
use nipo_science.Artifacts.Recovery.Effects.{
  Effect, claim-Effect, discard-Effect, discarded, finalize-Effect, finalized, kept, prepare-Effect,
  prepared, register-Effect, registered, release-Effect, released, save-Effect, saved, taken,
}
use nipo_science.Prelude.{
  Bytes, List, Option, Sha256, Text, Uuid, [], arith, get, get-put_ne, inl, inr, nat_eq, none, refl,
  some, subst, sym, text_eq, uuid_pair_eq, uuid_triple_eq, ◌∷◌, ◌≡◌, ◌≢◌,
}

-- A call on the recovery state.
pub data Call : Type 0 where
  register : WatcherOutput → Call
  claim : ArtifactScope → Uuid → Text → Uuid → Call
  prepare : ArtifactScope → Uuid → PendingArtifactCommit → Call
  release finalize : WatcherClaim → Call
  save discard : PendingArtifactCommit → Call

unfoldable pub perform : (Bytes → Sha256) → Call → Recovery → Recovery
perform sha256 (register output) r = (register_output output r).1
perform sha256 (claim scope execution reference token) r =
    (claim_output sha256 scope execution reference token r).1
perform sha256 (prepare scope execution commit) r =
    (claim_pending sha256 scope execution commit r).1
perform sha256 (release c) r = (release_claim c r).1
perform sha256 (finalize c) r = (finalize_claim c r).1
perform sha256 (save commit) r = (save_completed commit r).1
perform sha256 (discard commit) r = (discard_pending commit r).1

-- The reference of the call.
abbrev pub reference_of : Call → Text
reference_of (register output) = output.reference
reference_of (claim scope execution reference token) = reference
reference_of (prepare scope execution commit) = commit.claim.reference
reference_of (release c) = c.reference
reference_of (finalize c) = c.reference
reference_of (save commit) = commit.claim.reference
reference_of (discard commit) = commit.claim.reference

perform-Effect :
    (sha256 : Bytes → Sha256) (c : Call) (r : Recovery)
    → Effect (reference_of c) r (perform sha256 c r)
unfolding perform
perform-Effect sha256 (register output) r = register-Effect output r
perform-Effect sha256 (claim scope execution reference token) r =
    claim-Effect sha256 scope execution reference token r
perform-Effect sha256 (prepare scope execution commit) r =
    prepare-Effect sha256 scope execution commit r
perform-Effect sha256 (release c) r = release-Effect c r
perform-Effect sha256 (finalize c) r = finalize-Effect c r
perform-Effect sha256 (save commit) r = save-Effect commit r
perform-Effect sha256 (discard commit) r = discard-Effect commit r

-- A cell with no output has no reconciliation, so any output may be written.
none-IsCell :
    (c : Option ArtifactReconciliation)
    → IsCell none c
    → (s : OutputState) → s.claim_token ≡ none
    → IsCell (some s) c
none-IsCell none cell s h = inl h
none-IsCell (some c) cell s h = absurd cell

-- A cell that is neither claimed nor consumed has no reconciliation.
free-IsCell :
    (c : Option ArtifactReconciliation) (s : OutputState)
    → IsCell (some s) c
    → s.claim_token ≡ none
    → s.consumed_token ≡ none
    → (t : Uuid) → IsCell (some (claimed s.output t)) c
free-IsCell none s cell h u t = inr refl
free-IsCell (some (pending p)) s cell h u t = absurd (cc (cell.0, h))
free-IsCell (some (completed c)) s cell h u t = absurd (cc (cell.1.1, u))

pub Effect-IsRecovery : {k : Text} {r r' : Recovery} → Effect k r r' → IsRecovery r → IsRecovery r'
Effect-IsRecovery kept good = good
Effect-IsRecovery {k} {r} (registered o absent) good =
    write_output-IsRecovery k (free o) r
      (none-IsCell (get k r.reconciliations) (rw absent at (good k)) (free o) refl) good
Effect-IsRecovery {k} {r} (taken s t found c u) good =
    write_output-IsRecovery k (claimed s.output t) r
      (free-IsCell (get k r.reconciliations) s (rw found at (good k)) c u t) good
Effect-IsRecovery {k} {r} (prepared s p found c u same own) good =
    write_both-IsRecovery k (claimed s.output p.claim.token) (pending p) r (refl, refl, same) good
Effect-IsRecovery {k} {r} (released s t found c n) good =
    write_output-IsRecovery k (free s.output) r (rw n (inl refl)) good
Effect-IsRecovery {k} {r} (finalized s t found c n) good =
    write_output-IsRecovery k (spent s.output t) r (rw n (inl refl)) good
Effect-IsRecovery {k} {r} (saved s p found c t) good =
    write_both-IsRecovery k (spent s.output p.claim.token) (completed (completed_of p)) r
      (refl, (p.claim.token, refl)) good
Effect-IsRecovery {k} {r} (discarded s p found c t) good =
    write_and_drop-IsRecovery k (free s.output) r (inl refl) good

unfoldable pub perform_all : (Bytes → Sha256) → List Call → Recovery → Recovery
perform_all sha256 [] r = r
perform_all sha256 (c ∷ cs) r = perform_all sha256 cs (perform sha256 c r)

-- The maps stay well formed under any calls.
pub perform_all-IsRecovery :
    (sha256 : Bytes → Sha256) (cs : List Call) (r : Recovery)
    → IsRecovery r
    → IsRecovery (perform_all sha256 cs r)
unfolding perform_all
perform_all-IsRecovery sha256 [] r good = good
perform_all-IsRecovery sha256 (c ∷ cs) r good =
    perform_all-IsRecovery sha256 cs (perform sha256 c r)
      (Effect-IsRecovery (perform-Effect sha256 c r) good)

-- The output of the reference was consumed under the token.
abbrev pub IsConsumed : Text → Uuid → Recovery → Type 0
IsConsumed j t r = (s : OutputState) × (get j r.outputs ≡ some s) × (s.consumed_token ≡ some t)

-- A write of another reference leaves the record of the first.
elsewhere :
    (k j : Text) (t : Uuid) (s : OutputState) (r : Recovery)
    → k ≢ j
    → IsConsumed j t r
    → IsConsumed j t (write_output k s r)
elsewhere k j t s r other (s', found, used) =
    (s', cc (get-put_ne k j s r.outputs other, found), used)

elsewhere_drop :
    (k j : Text) (t : Uuid) (s : OutputState) (r : Recovery)
    → k ≢ j
    → IsConsumed j t r
    → IsConsumed j t (write_and_drop k s r)
elsewhere_drop k j t s r other (s', found, used) =
    (s', cc (get-put_ne k j s r.outputs other, found), used)

-- A consumed output has no claim.
spent_cell :
    (c : Option ArtifactReconciliation) (s : OutputState) (t t' : Uuid)
    → IsCell (some s) c
    → s.consumed_token ≡ some t
    → s.claim_token ≢ some t'
spent_cell none s t t' (inl u) used held = absurd (cc (u, held))
spent_cell none s t t' (inr u) used held = absurd (cc (u, used))
spent_cell (some (pending p)) s t t' cell used held = absurd (cc (cell.1, used))
spent_cell (some (completed c)) s t t' cell used held = absurd (cc (cell.0, held))

-- So a call that needs the claim does not find it.
unheld :
    (k : Text) (t t' : Uuid) (s : OutputState) (r : Recovery)
    → IsRecovery r
    → get k r.outputs ≡ some s
    → s.claim_token ≡ some t'
    → ¬ IsConsumed k t r
unheld k t t' s r good at_k held (s', found, used) =
    spent_cell (get k r.reconciliations) s t t' (rw at_k at (good k)) (cc (at_k, found, used)) held

-- A call for the same reference leaves a consumed output alone.
Effect-idle :
    {k : Text} {r r' : Recovery} (t : Uuid)
    → IsRecovery r
    → Effect k r r'
    → IsConsumed k t r
    → IsConsumed k t r'
Effect-idle t good kept consumed = consumed
Effect-idle t good (registered o absent) (s', found, used) = absurd (cc (absent, found))
Effect-idle t good (taken s t' at_k c u) (s', found, used) = absurd (cc (at_k, found, u, used))
Effect-idle t good (prepared s p at_k c u same own) (s', found, used) =
    absurd (cc (at_k, found, u, used))
Effect-idle {k} {r} t good (released s t' at_k c n) used =
    absurd (unheld k t t' s r good at_k c used)
Effect-idle {k} {r} t good (finalized s t' at_k c n) used =
    absurd (unheld k t t' s r good at_k c used)
Effect-idle {k} {r} t good (saved s p at_k n c) used =
    absurd (unheld k t p.claim.token s r good at_k c used)
Effect-idle {k} {r} t good (discarded s p at_k n c) used =
    absurd (unheld k t p.claim.token s r good at_k c used)

-- A call for another reference does not reach it.
Effect-apart :
    {k : Text} {r r' : Recovery} (j : Text) (t : Uuid)
    → k ≢ j
    → Effect k r r'
    → IsConsumed j t r
    → IsConsumed j t r'
Effect-apart j t other kept used = used
Effect-apart {k} {r} j t other (registered o absent) used = elsewhere k j t (free o) r other used
Effect-apart {k} {r} j t other (taken s t' at_k c u) used =
    elsewhere k j t (claimed s.output t') r other used
Effect-apart {k} {r} j t other (prepared s p at_k c u same own) used =
    elsewhere k j t (claimed s.output p.claim.token) r other used
Effect-apart {k} {r} j t other (released s t' at_k c n) used =
    elsewhere k j t (free s.output) r other used
Effect-apart {k} {r} j t other (finalized s t' at_k c n) used =
    elsewhere k j t (spent s.output t') r other used
Effect-apart {k} {r} j t other (saved s p at_k n c) used =
    elsewhere k j t (spent s.output p.claim.token) r other used
Effect-apart {k} {r} j t other (discarded s p at_k n c) used =
    elsewhere_drop k j t (free s.output) r other used

-- Either way the record of a consumed output stays.
Effect-IsConsumed :
    (k j : Text) (t : Uuid) {r r' : Recovery}
    → IsRecovery r
    → Effect k r r'
    → IsConsumed j t r
    → IsConsumed j t r'
Effect-IsConsumed k j t {r} {r'} good e used = elim (text_eq.decide k j) [
  | yes same ↦
      subst (λ i. IsConsumed i t r') same
        (Effect-idle t good e (subst (λ i. IsConsumed i t r) (sym same) used))
  | no other ↦ Effect-apart j t other e used
]

-- In any sequence of calls on well-formed maps, an output that was consumed stays consumed under
-- the same token.
pub perform_all-IsConsumed :
    (sha256 : Bytes → Sha256) (cs : List Call) (r : Recovery) (j : Text) (t : Uuid)
    → IsRecovery r
    → IsConsumed j t r
    → IsConsumed j t (perform_all sha256 cs r)
unfolding perform_all
perform_all-IsConsumed sha256 [] r j t good used = used
perform_all-IsConsumed sha256 (c ∷ cs) r j t good used =
    let e = perform-Effect sha256 c r in
    perform_all-IsConsumed sha256 cs (perform sha256 c r) j t (Effect-IsRecovery e good)
      (Effect-IsConsumed (reference_of c) j t good e used)

-- A consumed output is neither resolved nor claimed.
consumed_refused :
    (sha256 : Bytes → Sha256) (scope : ArtifactScope) (execution : Uuid) (j : Text) (t token : Uuid)
    (r : Recovery)
    → IsConsumed j t r
    → (resolve_output sha256 scope execution j r ≡ none)
      × (claim_output sha256 scope execution j token r ≡ (none, r))
unfolding resolve_output claim_output claimable
consumed_refused sha256 scope execution j t token r (s, found, used) = ground arith

-- Once an output is consumed, no later call whatever makes it resolvable or claimable again.
pub perform_all-refuses :
    (sha256 : Bytes → Sha256) (cs : List Call) (r : Recovery) (scope : ArtifactScope)
    (execution : Uuid) (j : Text) (t token : Uuid)
    → IsRecovery r
    → IsConsumed j t r
    → (resolve_output sha256 scope execution j (perform_all sha256 cs r) ≡ none)
      × (claim_output sha256 scope execution j token (perform_all sha256 cs r)
          ≡ (none, perform_all sha256 cs r))
perform_all-refuses sha256 cs r scope execution j t token good used =
    consumed_refused sha256 scope execution j t token (perform_all sha256 cs r)
      (perform_all-IsConsumed sha256 cs r j t good used)
