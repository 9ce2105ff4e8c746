-- ===== src/Release/Authorization.antt =====
-- Release authorization: control_plane/authorization_v2.py.
pub mod Window
use ml_template.Prelude.{
  ◌>>=◌, ◌>>◌, String_eq, ℕ_eq, Option_eq, ℕ, String, List, Result, Option, Bool, check, false,
  break_at, strip_prefix, or_raise, err, true, if◌then◌else◌, ◌*◌, ◌==◌, all, ◌∷◌, codes, eqb,
  key_error, value_error, is_none, ◌&&◌, ◌||◌, is_digit, is_alnum, ok, list_beq, drop, is_hex, ltb,
  find, leb, none, length, not, [], filter, other_error, type_error, decimal, option_map, ◌-◌, ◌+◌,
  some,
}
use ml_template.Release.Types.{
  Time, ServingPair, Identity, Source, Candidate, Evidence, Baseline, Authorization, Status,
  ready_for_release, approved_for_release, PendingItem, State,
}
use ml_template.Release.Equality.{Candidate_eq, Baseline_eq, Evidence_eq, Status_eq}
use ml_template.Release.Host.{Host}
use ml_template.Release.Events.{identity}
use ml_template.Release.Pairs.{is_digest, serving_pair}
use ml_template.Runtime.Resolver.{validate_request}

-- TTL and EVIDENCE_TTL, in microseconds
abbrev pub ttl : ℕ
ttl = 900 * 1000000

abbrev pub evidence_ttl : ℕ
evidence_ttl = 86400 * 1000000

-- `int(version)`; a text that is no plain decimal number is refused here, and in the code at the
-- latest where no pending version equals it
unfoldable pub to_int : String → Result ℕ
to_int version =
    check (all is_digit (codes version) && leb 1 (length (codes version)))
      (value_error "invalid literal for int()")
    >> ok (decimal 0 (codes version))

is_ticket : List ℕ → Bool
is_ticket [] = false
is_ticket (c ∷ s) =
    is_alnum c
    && all (λ d. is_alnum d || d == b'.' || d == b'_' || d == b':' || d == b'/' || d == b'-') s
    && leb (length s) 127

unfoldable pub ticket : String → Result String
unfolding is_ticket
ticket value = check (is_ticket (codes value)) (value_error "invalid_ticket_reference") >> ok value

-- [1-9][0-9]{0,19}
is_run_number : List ℕ → Bool
is_run_number [] = false
is_run_number (c ∷ s) = is_digit c && not (c == b'0') && all is_digit s && leb (length s) 19

-- 0|[1-9][0-9]*
is_semver_part : List ℕ → Bool
is_semver_part [] = false
is_semver_part (c ∷ s) = if c == b'0' then list_beq s [] else is_digit c && all is_digit s

is_semver : List ℕ → Bool
is_semver s =
    let (major, s1) = break_at (eqb b'.') s in
    let (minor, s2) = break_at (eqb b'.') (drop 1 s1) in
    is_semver_part major
    && is_semver_part minor
    && is_semver_part (drop 1 s2)
    && not (list_beq s2 [])

is_release_tag : List ℕ → Bool
is_release_tag ref = elim (strip_prefix (codes "refs/tags/v") ref) [
  | none ↦ false
  | some version ↦ is_semver version
]

unfoldable pub source : Source → Result Source
unfolding is_run_number is_release_tag is_semver is_semver_part
source value = do
  check
      (value.repository == "Ngducanh05/ml_template"
        && value.workflow == ".github/workflows/release.yml")
      (value_error "unexpected_release_workflow")
  check (is_run_number (codes value.run_id)) (value_error "invalid_release_run")
  check (value.run_attempt == "1") (value_error "release_rerun_prohibited")
  check (all is_hex (codes value.sha) && length (codes value.sha) == 40)
      (value_error "invalid_source_sha")
  check (is_release_tag (codes value.ref)) (value_error "release_requires_semver_tag")
  ok value

-- `candidate_identity` of an item with these entries
unfoldable pub candidate_identity : Option ServingPair → Option String → Identity → Result Candidate
candidate_identity pair fingerprint event = do
  p ← or_raise pair key_error
  serving_pair p
  check (p.model_version == event.model_version && p.storage_uri == event.artifact_uri)
      (value_error "candidate_event_mismatch")
  fp ← or_raise fingerprint key_error
  check (is_digest fp) (value_error "invalid_fingerprint")
  ok (record { pair = p; fingerprint = fp; event = event })

unfoldable pub item_identity : PendingItem → Result Candidate
unfolding candidate_identity
item_identity item = candidate_identity item.pair item.fingerprint (identity item.event)

-- x['event']['model_version'] == version
unfoldable pub has_version : String → PendingItem → Bool
has_version version item = item.event.model_version == version

is_eligible : Status → Bool
is_eligible s = s == ready_for_release || s == approved_for_release

module _ (h : Host) where
  -- the candidate of `matches`, which must be the only one
  the_match : List PendingItem → Result PendingItem
  the_match [] = err (value_error "candidate_not_eligible")
  the_match (item ∷ []) =
      check (is_eligible item.status) (value_error "candidate_not_eligible") >> ok item
  the_match (item ∷ next ∷ rest) = err (value_error "candidate_not_eligible")

  -- the candidate's part of `snapshot`
  match_identity : PendingItem → Result Candidate
  match_identity item = do
    request ← or_raise item.build_request key_error
    validate_request h request
    fingerprint ← or_raise item.fingerprint key_error
    check (request.fingerprint == fingerprint) (value_error "candidate_contract_mismatch")
    item_identity item

  unfoldable pub snapshot : State → String → Result Baseline
  unfolding the_match match_identity is_eligible
  snapshot s version = do
    check (is_none s.active && s.route.weight == 0) (value_error "release_baseline_not_idle")
    stable ← or_raise s.stable (value_error "release_baseline_not_idle")
    number ← to_int version
    stable_number ← to_int stable.model_version
    check (number == s.highest_accepted && ltb stable_number number)
        (value_error "stale_release_candidate")
    item ← the_match (filter (has_version version) s.pending)
    candidate ← match_identity item
    ok (record {
      candidate = candidate;
      stable = stable;
      stable_fingerprint = s.stable_fingerprint;
      highest_accepted = s.highest_accepted;
    })

  -- the evidence that the release workflow shows to the approvers
  unfoldable pub evidence : State → String → String → Source → String → Time → Result Evidence
  evidence s version ticket_reference release_source security_hash now = do
    ticket ticket_reference
    source release_source
    check (is_digest security_hash) (value_error "security_evidence_required")
    current ← snapshot s version
    item ← or_raise (find (has_version version) s.pending) other_error
    ok (record {
      schema_version = 1;
      candidate = current.candidate;
      stable = current.stable;
      stable_fingerprint = current.stable_fingerprint;
      highest_accepted = current.highest_accepted;
      supersedes = option_map (λ (a : Authorization). a.evidence_hash) item.authorization;
      ticket_reference = ticket_reference;
      source = release_source;
      security_hash = security_hash;
      created_at = now;
    })

  valid_supersedes : Option String → Bool
  valid_supersedes none = true
  valid_supersedes (some digest) = is_digest digest

  -- `validate_authorization`, once the entry is there
  check_authorization : Authorization → Result Candidate → Result (Unit {0})
  check_authorization auth item = do
    let ev = auth.evidence
    check (ev.schema_version == 1) (value_error "approval_candidate_mismatch")
    candidate ← item
    check (ev.candidate == candidate) (value_error "approval_candidate_mismatch")
    check (valid_supersedes ev.supersedes) (value_error "invalid_previous_authorization")
    ticket ev.ticket_reference
    source ev.source
    serving_pair ev.stable
    fingerprint ← or_raise ev.stable_fingerprint type_error
    check (is_digest fingerprint && is_digest ev.security_hash)
        (value_error "invalid_approval_digest")
    version ← to_int ev.candidate.pair.model_version
    check (ev.highest_accepted == version) (value_error "approval_version_mismatch")
    check
        (leb ev.created_at auth.authorized_at
          && leb (auth.authorized_at - ev.created_at) evidence_ttl
          && auth.expires_at == auth.authorized_at + ttl)
        (value_error "invalid_authorization_lifetime")
    check (auth.evidence_hash == h.evidence_hash ev) (value_error "authorization_evidence_mismatch")

  -- `validate_authorization`, of an entry that may be missing; the second argument is what
  -- `candidate_identity` gives for the item
  unfoldable pub validate_authorization :
      Option Authorization → Result Candidate → Result (Unit {0})
  unfolding check_authorization valid_supersedes
  validate_authorization none item = err (value_error "invalid_authorization")
  validate_authorization (some auth) item = check_authorization auth item

  unfoldable pub evidence_baseline : Evidence → Baseline
  evidence_baseline ev = record {
    candidate = ev.candidate;
    stable = ev.stable;
    stable_fingerprint = ev.stable_fingerprint;
    highest_accepted = ev.highest_accepted;
  }

  claim_test : State → PendingItem → Time → Result Bool
  unfolding evidence_baseline
  claim_test s item now = do
    validate_authorization item.authorization (item_identity item)
    auth ← or_raise item.authorization key_error
    pair ← or_raise item.pair key_error
    if leb auth.authorized_at now && ltb now auth.expires_at
        then (snapshot s pair.model_version >>= λ current.
            ok (current == evidence_baseline auth.evidence))
        else ok false

  unfoldable pub claimable : State → PendingItem → Time → Bool
  unfolding claim_test
  claimable s item now =
      if item.status == approved_for_release
      then (elim (claim_test s item now) [ ok b ↦ b | err _ ↦ false ])
      else false
