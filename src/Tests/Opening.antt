-- ===== src/Tests/Opening.antt =====
-- Groups of definitions to open where a test computes.
use ml_template.Prelude.{text_loops}
use ml_template.Release.Equality.{
  status_beq, candidate_beq, pair_beq, identity_beq, baseline_beq, profile_beq, request_beq,
}
use ml_template.Release.Pairs.{
  serving_pair, numeric_version, runtime_image, storage_uri, urlsplit, is_digest,
}
use ml_template.Release.Authorization.{
  validate_authorization, item_identity, candidate_identity, evidence_baseline, has_version,
  snapshot, source, ticket, to_int,
}
use ml_template.Release.State.{validate, check_items, check_item, is_weight, within_bounds}
use ml_template.Release.Events.{identity}
use ml_template.Runtime.Python.{parse_python_version}
use ml_template.Runtime.Requirements.{is_space, normalize_requirements, pinned, text_ltb}
use ml_template.Runtime.Resolver.{build_request, join_lines, runtime_fingerprint, validate_request}

-- The equality tests and the checks of a serving pair.
unfoldable pub pair_checks : Unit {0}
unfolding text_loops status_beq candidate_beq pair_beq identity_beq baseline_beq profile_beq
    request_beq serving_pair numeric_version runtime_image storage_uri urlsplit is_digest
pair_checks = tt

-- The checks of build requests and of approvals.
unfoldable pub approval_checks : Unit {0}
unfolding pair_checks validate_authorization item_identity identity candidate_identity
    evidence_baseline has_version snapshot source ticket to_int parse_python_version is_space
    normalize_requirements pinned text_ltb build_request join_lines runtime_fingerprint
    validate_request
approval_checks = tt

-- The check of a release state.
unfoldable pub state_checks : Unit {0}
unfolding approval_checks validate check_items check_item is_weight within_bounds
state_checks = tt
