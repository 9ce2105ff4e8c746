-- ===== src/Release/Equality/Approvals.antt =====
-- Python's `==` on candidates, evidence, approvals and statuses.
use mathlib.Core.Bool.{◌&&◌}
use ml_template.Prelude.{Bool, true, false, ◌≡◌, ◌↔◌, arith, Eq, ◌==◌, ==_iff, ℕ_eq, String_eq}
use ml_template.Prelude.{Option_eq, List_eq}
use ml_template.Release.Types.{
  Candidate, Evidence, Authorization, Status, accepted, resolution_retry, resolution_blocked,
  build_required, ready_for_release, approved_for_release, Baseline,
}
use ml_template.Release.Equality.Parts.{
  ServingPair_eq, RuntimeProfile_eq, BuildRequest_eq, Identity_eq, Event_eq, Source_eq,
}

unfoldable pub candidate_beq : Candidate → Candidate → Bool
candidate_beq a b = a.pair == b.pair && a.fingerprint == b.fingerprint && a.event == b.event

pub candidate_beq_iff : (a b : Candidate) → (candidate_beq a b ≡ true) ↔ (a ≡ b)
unfolding candidate_beq
candidate_beq_iff a b =
    ground (arith, ==_iff a.pair b.pair, ==_iff a.fingerprint b.fingerprint, ==_iff a.event b.event)

instance abbrev pub Candidate_eq : Eq Candidate
Candidate_eq = record { beq = candidate_beq; beq_iff = candidate_beq_iff }

unfoldable pub evidence_beq : Evidence → Evidence → Bool
evidence_beq a b =
    a.schema_version == b.schema_version
    && a.candidate == b.candidate
    && a.stable == b.stable
    && a.stable_fingerprint == b.stable_fingerprint
    && a.highest_accepted == b.highest_accepted
    && a.supersedes == b.supersedes
    && a.ticket_reference == b.ticket_reference
    && a.source == b.source
    && a.security_hash == b.security_hash
    && a.created_at == b.created_at

pub evidence_beq_iff : (a b : Evidence) → (evidence_beq a b ≡ true) ↔ (a ≡ b)
unfolding evidence_beq
evidence_beq_iff a b = ground (
  arith,
  ==_iff a.schema_version b.schema_version,
  ==_iff a.candidate b.candidate,
  ==_iff a.stable b.stable,
  ==_iff a.stable_fingerprint b.stable_fingerprint,
  ==_iff a.highest_accepted b.highest_accepted,
  ==_iff a.supersedes b.supersedes,
  ==_iff a.ticket_reference b.ticket_reference,
  ==_iff a.source b.source,
  ==_iff a.security_hash b.security_hash,
  ==_iff a.created_at b.created_at,
)

instance abbrev pub Evidence_eq : Eq Evidence
Evidence_eq = record { beq = evidence_beq; beq_iff = evidence_beq_iff }

unfoldable pub baseline_beq : Baseline → Baseline → Bool
baseline_beq a b =
    a.candidate == b.candidate
    && a.stable == b.stable
    && a.stable_fingerprint == b.stable_fingerprint
    && a.highest_accepted == b.highest_accepted

pub baseline_beq_iff : (a b : Baseline) → (baseline_beq a b ≡ true) ↔ (a ≡ b)
unfolding baseline_beq
baseline_beq_iff a b = ground (
  arith,
  ==_iff a.candidate b.candidate,
  ==_iff a.stable b.stable,
  ==_iff a.stable_fingerprint b.stable_fingerprint,
  ==_iff a.highest_accepted b.highest_accepted,
)

instance abbrev pub Baseline_eq : Eq Baseline
Baseline_eq = record { beq = baseline_beq; beq_iff = baseline_beq_iff }

unfoldable pub authorization_beq : Authorization → Authorization → Bool
authorization_beq a b =
    a.evidence == b.evidence
    && a.evidence_hash == b.evidence_hash
    && a.authorized_at == b.authorized_at
    && a.expires_at == b.expires_at

pub authorization_beq_iff : (a b : Authorization) → (authorization_beq a b ≡ true) ↔ (a ≡ b)
unfolding authorization_beq
authorization_beq_iff a b = ground (
  arith,
  ==_iff a.evidence b.evidence,
  ==_iff a.evidence_hash b.evidence_hash,
  ==_iff a.authorized_at b.authorized_at,
  ==_iff a.expires_at b.expires_at,
)

instance abbrev pub Authorization_eq : Eq Authorization
Authorization_eq = record { beq = authorization_beq; beq_iff = authorization_beq_iff }

unfoldable pub status_beq : Status → Status → Bool
status_beq accepted accepted = true
status_beq resolution_retry resolution_retry = true
status_beq resolution_blocked resolution_blocked = true
status_beq build_required build_required = true
status_beq ready_for_release ready_for_release = true
status_beq approved_for_release approved_for_release = true
status_beq _ _ = false

pub status_beq_iff : (a b : Status) → (status_beq a b ≡ true) ↔ (a ≡ b)
unfolding status_beq
status_beq_iff a b = ground arith

instance abbrev pub Status_eq : Eq Status
Status_eq = record { beq = status_beq; beq_iff = status_beq_iff }
