-- ===== src/Release/Equality/Parts.antt =====
-- Python's `==` on the parts of the release state, field by field.
use mathlib.Core.Bool.{◌&&◌}
use ml_template.Prelude.{Bool, true, ◌≡◌, ◌↔◌, arith, Eq, ◌==◌, ==_iff, ℕ_eq, String_eq}
use ml_template.Prelude.{Option_eq, List_eq}
use ml_template.Release.Types.{ServingPair, RuntimeProfile, BuildRequest, Identity, Event, Source}

unfoldable pub pair_beq : ServingPair → ServingPair → Bool
pair_beq a b =
    a.model_version == b.model_version
    && a.runtime_digest == b.runtime_digest
    && a.storage_uri == b.storage_uri

pub pair_beq_iff : (a b : ServingPair) → (pair_beq a b ≡ true) ↔ (a ≡ b)
unfolding pair_beq
pair_beq_iff a b = ground (
  arith,
  ==_iff a.model_version b.model_version,
  ==_iff a.runtime_digest b.runtime_digest,
  ==_iff a.storage_uri b.storage_uri,
)

instance abbrev pub ServingPair_eq : Eq ServingPair
ServingPair_eq = record { beq = pair_beq; beq_iff = pair_beq_iff }

unfoldable pub profile_beq : RuntimeProfile → RuntimeProfile → Bool
profile_beq a b =
    a.mlserver_version == b.mlserver_version
    && a.mlserver_mlflow_version == b.mlserver_mlflow_version
    && a.platform == b.platform
    && a.build_profile == b.build_profile
    && a.serving_profile == b.serving_profile

pub profile_beq_iff : (a b : RuntimeProfile) → (profile_beq a b ≡ true) ↔ (a ≡ b)
unfolding profile_beq
profile_beq_iff a b = ground (
  arith,
  ==_iff a.mlserver_version b.mlserver_version,
  ==_iff a.mlserver_mlflow_version b.mlserver_mlflow_version,
  ==_iff a.platform b.platform,
  ==_iff a.build_profile b.build_profile,
  ==_iff a.serving_profile b.serving_profile,
)

instance abbrev pub RuntimeProfile_eq : Eq RuntimeProfile
RuntimeProfile_eq = record { beq = profile_beq; beq_iff = profile_beq_iff }

unfoldable pub request_beq : BuildRequest → BuildRequest → Bool
request_beq a b =
    a.schema_version == b.schema_version
    && a.fingerprint == b.fingerprint
    && a.python_version == b.python_version
    && a.requirements == b.requirements
    && a.runtime_profile == b.runtime_profile

pub request_beq_iff : (a b : BuildRequest) → (request_beq a b ≡ true) ↔ (a ≡ b)
unfolding request_beq
request_beq_iff a b = ground (
  arith,
  ==_iff a.schema_version b.schema_version,
  ==_iff a.fingerprint b.fingerprint,
  ==_iff a.python_version b.python_version,
  ==_iff a.requirements b.requirements,
  ==_iff a.runtime_profile b.runtime_profile,
)

instance abbrev pub BuildRequest_eq : Eq BuildRequest
BuildRequest_eq = record { beq = request_beq; beq_iff = request_beq_iff }

unfoldable pub identity_beq : Identity → Identity → Bool
identity_beq a b =
    a.model_name == b.model_name
    && a.model_version == b.model_version
    && a.artifact_uri == b.artifact_uri
    && a.run_id == b.run_id

pub identity_beq_iff : (a b : Identity) → (identity_beq a b ≡ true) ↔ (a ≡ b)
unfolding identity_beq
identity_beq_iff a b = ground (
  arith,
  ==_iff a.model_name b.model_name,
  ==_iff a.model_version b.model_version,
  ==_iff a.artifact_uri b.artifact_uri,
  ==_iff a.run_id b.run_id,
)

instance abbrev pub Identity_eq : Eq Identity
Identity_eq = record { beq = identity_beq; beq_iff = identity_beq_iff }

unfoldable pub event_beq : Event → Event → Bool
event_beq a b =
    a.model_name == b.model_name
    && a.model_version == b.model_version
    && a.artifact_uri == b.artifact_uri
    && a.run_id == b.run_id
    && a.previous_version == b.previous_version
    && a.promoted_at == b.promoted_at

pub event_beq_iff : (a b : Event) → (event_beq a b ≡ true) ↔ (a ≡ b)
unfolding event_beq
event_beq_iff a b = ground (
  arith,
  ==_iff a.model_name b.model_name,
  ==_iff a.model_version b.model_version,
  ==_iff a.artifact_uri b.artifact_uri,
  ==_iff a.run_id b.run_id,
  ==_iff a.previous_version b.previous_version,
  ==_iff a.promoted_at b.promoted_at,
)

instance abbrev pub Event_eq : Eq Event
Event_eq = record { beq = event_beq; beq_iff = event_beq_iff }

unfoldable pub source_beq : Source → Source → Bool
source_beq a b =
    a.repository == b.repository
    && a.workflow == b.workflow
    && a.run_id == b.run_id
    && a.run_attempt == b.run_attempt
    && a.sha == b.sha
    && a.ref == b.ref

pub source_beq_iff : (a b : Source) → (source_beq a b ≡ true) ↔ (a ≡ b)
unfolding source_beq
source_beq_iff a b = ground (
  arith,
  ==_iff a.repository b.repository,
  ==_iff a.workflow b.workflow,
  ==_iff a.run_id b.run_id,
  ==_iff a.run_attempt b.run_attempt,
  ==_iff a.sha b.sha,
  ==_iff a.ref b.ref,
)

instance abbrev pub Source_eq : Eq Source
Source_eq = record { beq = source_beq; beq_iff = source_beq_iff }
