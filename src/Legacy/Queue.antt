-- ===== src/Legacy/Queue.antt =====
-- The mutations of control_plane/state.py: `initial_state`, `audit`, `ingest` and the closure of
-- `operator_retry`.
pub mod Distinct
use ml_template.Prelude.{
  ℕ, String, none, List, Option, Bool, Result, [], any, if◌then◌else◌, ◌>>◌, ◌==◌, last_n, false,
  ok, filter, ◌∷◌, check, ◌>>=◌, ◌||◌, ◌&&◌, String_eq, ltb, some, not, is_none, ◌++◌, ℕ_eq, leb,
  busy, length, or_raise, err, value_error,
}
use ml_template.Legacy.Types.{State, Release, epoch, Active, Failure}
use ml_template.Release.Types.{text, number}
use ml_template.Release.Types.{Time, Field, absent}
use ml_template.Legacy.Candidates.{Parsed, candidate, refused}

abbrev pub history : ℕ
history = 100

abbrev pub max_pending : ℕ
max_pending = 20

abbrev pub base_digest : String
base_digest = "sha256:45dcaf3b993483344e55f71d7486cc83ab76fd9cff8a6690318449df48d4a3a5"

unfoldable pub initial_state : State
initial_state = record {
  stable = record { version = 1; digest = base_digest; source_time = epoch };
  active = none;
  pending = [];
  processed = base_digest ∷ [];
  failed = [];
  audit = [];
  route = record { weight = 0; revision = 0 };
  lease = none;
}

-- `audit(state, reason, **fields)`
unfoldable pub audit : State → String → Time → List (String × Field) → State
audit s reason now fields = record s {
  audit =
      last_n history (s.audit ++ (record { time = now; reason = reason; fields = fields }) ∷ []);
}

-- whether a list of releases holds a digest
unfoldable pub holds : String → List Release → Bool
holds digest releases = any (λ c. c.digest == digest) releases

is_active : String → Option Active → Bool
is_active digest none = false
is_active digest (some a) = a.candidate.digest == digest

-- `digest in known`
unfoldable pub is_known : State → String → Bool
unfolding is_active holds
is_known s digest =
    any (λ d. d == digest) s.processed
    || any (λ f. f.candidate.digest == digest) s.failed
    || holds digest s.pending
    || s.stable.digest == digest
    || is_active digest s.active

-- a version that the stable release forbids: an older one, or one of the same number that is not
-- newer than a stable release with a time
unfoldable pub is_stale_rebuild : Release → Release → Bool
is_stale_rebuild c stable =
    c.version == stable.version
    && ltb epoch stable.source_time
    && leb c.source_time stable.source_time

-- the outcome for a candidate, and the snapshot before its audit entry
unfoldable pub ingest_candidate : State → Release → Result (String × State)
unfolding is_known is_stale_rebuild
ingest_candidate s c =
    if is_known s c.digest
    then ok ("duplicate", s)
    else if ltb c.version s.stable.version
    then ok ("stale", s)
    else if is_stale_rebuild c s.stable
    then ok ("stale_rebuild", s)
    else if leb max_pending (length s.pending)
    then err (busy "Pending release queue full")
    else ok ("accepted", record s { pending = s.pending ++ c ∷ [] })

optional_text : Option String → Field
optional_text none = absent
optional_text (some t) = text t

ingest_fields : Option String → Option String → List (String × Field)
unfolding optional_text
ingest_fields event_id digest =
    ("event_id", optional_text event_id) ∷ ("digest", optional_text digest) ∷ []

-- `ingest` of a candidate, or of the reason why there is none
unfoldable pub ingest : Parsed → Option String → Time → State → Result (String × State)
unfolding ingest_candidate ingest_fields
ingest (candidate c) event_id now s = do
  (outcome, next) ← ingest_candidate s c
  ok (outcome, audit next outcome now (ingest_fields event_id (some c.digest)))
ingest (refused reason) event_id now s =
    ok (reason, audit s reason now (ingest_fields event_id none))

-- the failures of this digest and version
unfoldable pub retry_matches : String → ℕ → State → List Failure
retry_matches digest version s =
    filter (λ f. f.candidate.digest == digest && f.candidate.version == version) s.failed

-- `matches[-1]`
unfoldable pub last_of : List Failure → Option Failure
last_of [] = none
last_of (f ∷ rest) = elim (last_of rest) [ none ↦ some f | some g ↦ some g ]

retry_fields : Release → String → String → String → List (String × Field)
retry_fields c operator note reason =
    ("digest", text c.digest)
    ∷ ("version", number c.version)
    ∷ ("operator", text operator)
    ∷ ("note", text note)
    ∷ ("previous_failure", text reason)
    ∷ []

-- the checks of `retry` on the state, of the last matching failure
unfoldable pub check_retry : State → Release → Result (Unit {0})
unfolding is_stale_rebuild
check_retry s c = do
  check (not (c.digest == s.stable.digest || any (λ d. d == c.digest) s.processed))
      (busy "Digest is already stable or processed")
  check (not (ltb c.version s.stable.version || is_stale_rebuild c s.stable))
      (busy "Retry would regress current Stable")
  check (ltb (length s.pending) max_pending) (busy "Pending release queue full")

-- the candidate that is queued again
unfoldable pub requeued : String → ℕ → Failure → Release
requeued digest version previous = record {
  version = version;
  digest = digest;
  source_time = previous.candidate.source_time;
}

-- the closure `retry`
unfoldable pub retry : String → ℕ → String → String → Time → State → Result (Release × State)
unfolding retry_matches last_of retry_fields check_retry holds requeued
retry digest version operator note now s = do
  check (is_none s.active) (busy "An active release conflicts with retry")
  check (not (holds digest s.pending)) (busy "Digest already pending")
  previous ←
      or_raise (last_of (retry_matches digest version s))
        (value_error "Failed digest/version not found")
  let c = requeued digest version previous
  check_retry s c
  ok (
    c,
    audit (record s { pending = s.pending ++ c ∷ [] }) "operator_retry" now
        (retry_fields c operator note previous.reason),
  )
