-- ===== src/Tests/Authorization.antt =====
-- The window of an approval, at a concrete candidate.
use ml_template.Prelude.{◌≡◌, ◌*◌, true, false, refl, find, some, ok}
use ml_template.Release.Authorization.{claimable, has_version, snapshot, evidence_baseline}
use ml_template.Release.Authorization.Window.{Approved, claimable_lem}
use ml_template.Tests.Data.{host, approved_state, approved_item, proof, approval}
use ml_template.Tests.Opening.{approval_checks}
use ml_template.Release.Authorize.{authorize}
use ml_template.Release.Types.{PendingItem}
use ml_template.Release.Equality.{evidence_beq, source_beq}
use ml_template.Release.Authorize.Cases.{Decided, authorize-Decided}

can_claim : claimable host approved_state approved_item (2100 * 1000000) ≡ true
unfolding claimable approval_checks
can_claim = refl

too_late : claimable host approved_state approved_item (2900 * 1000000) ≡ false
unfolding claimable approval_checks
too_late = refl

claimable_lem_example : Approved host approved_state approved_item (2100 * 1000000)
claimable_lem_example = claimable_lem host approved_state approved_item (2100 * 1000000) can_claim

authorizes : authorize host proof (2100 * 1000000) approved_state ≡ ok (approval, approved_state)
unfolding authorize evidence_beq source_beq claimable approval_checks
authorizes = refl

authorize-Decided_example :
    (item : PendingItem) × (find (has_version "2") approved_state.pending ≡ some item)
    × (snapshot host approved_state "2" ≡ ok (evidence_baseline host proof))
    × Decided host proof
        (2100 * 1000000)
        approved_state
        item
        item.authorization
        approval
        approved_state
authorize-Decided_example = authorize-Decided host proof (2100 * 1000000) approved_state authorizes
