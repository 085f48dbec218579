-- ===== src/Recovery/Holds.antt =====
-- When a retried write releases the hold, and when an interrupted change had no effect.
use local_plane.Prelude.{◌≡◌, ◌↔◌, ◌⊎◌, Bool, true, false, Option, none, some, arith}
use local_plane.Settlement.{MutationOutcome, not_written, written}
use local_plane.Recovery.{
  host_effect_for, no_effect, outcome_on_recovery, VerificationOutcome, verified,
  recovery_outcome_for, releases_hold, is_settled,
}

-- A retried write releases the hold on its target exactly where the write was acknowledged and a reading has
-- verified it; whatever became of it, the attempt is settled.
pub recovery_outcome_for-releases_iff :
    (m : MutationOutcome) (v : VerificationOutcome)
    → ((releases_hold (recovery_outcome_for m v) ≡ true) ↔ ((m ≡ written) × (v ≡ verified)))
      × (is_settled (recovery_outcome_for m v) ≡ true)
unfolding recovery_outcome_for releases_hold
recovery_outcome_for-releases_iff m v = ((λ h. ground arith, λ h. ground arith), ground arith)

-- A change that is found interrupted counts as without effect on the host exactly where a recorded outcome says
-- that nothing was written, or nothing is recorded and the dispatch had not begun.
pub outcome_on_recovery-no_effect_iff :
    (dispatch_began : Bool) (recorded : Option MutationOutcome)
    → (host_effect_for (outcome_on_recovery dispatch_began recorded) ≡ no_effect)
      ↔ ((recorded ≡ some not_written) ⊎ ((recorded ≡ none) × (dispatch_began ≡ false)))
unfolding host_effect_for outcome_on_recovery
outcome_on_recovery-no_effect_iff dispatch_began recorded = (λ h. ground arith, λ h. ground arith)
