-- ===== src/Release/Types.antt =====
-- The release state of control_plane/state_v2.py and what it holds.
use ml_template.Prelude.{ℕ, Bool, String, Option, List}

-- Decoded JSON. `other` is a list, or a number that is not a whole number from 0 on.
mutual
  pub data Json : Type 0 where
    null : Json
    bool : Bool → Json
    int : ℕ → Json
    str : String → Json
    obj : Fields → Json
    other : Json

  pub data Fields : Type 0 where
    end : Fields
    entry : String → Json → Fields → Fields

-- Times are readings of `time.time()` in microseconds.
abbrev pub Time : Type 0
Time = ℕ

-- A text that the program takes apart, as its code points.
abbrev pub Text : Type 0
Text = List ℕ

pub record ServingPair : Type 0 where
  pub model_version : String
  pub runtime_digest : String
  pub storage_uri : String

-- The event that `parse_event` returns. Its keys schema_version, event, alias and workspace have
-- one value each, which `parse_event` has tested.
pub record Event : Type 0 where
  pub model_name : String
  pub model_version : String
  pub artifact_uri : String
  pub run_id : String
  pub previous_version : Option String
  pub promoted_at : String

pub record Identity : Type 0 where
  pub model_name : String
  pub model_version : String
  pub artifact_uri : String
  pub run_id : String

pub record RuntimeProfile : Type 0 where
  pub mlserver_version : String
  pub mlserver_mlflow_version : String
  pub platform : String
  pub build_profile : String
  pub serving_profile : String

pub record BuildRequest : Type 0 where
  pub schema_version : ℕ
  pub fingerprint : String
  pub python_version : Text
  pub requirements : List Text
  pub runtime_profile : RuntimeProfile

-- The `release_source` of an approval.
pub record Source : Type 0 where
  pub repository : String
  pub workflow : String
  pub run_id : String
  pub run_attempt : String
  pub sha : String
  pub ref : String

pub record Candidate : Type 0 where
  pub pair : ServingPair
  pub fingerprint : String
  pub event : Identity

pub record Evidence : Type 0 where
  pub schema_version : ℕ
  pub candidate : Candidate
  pub stable : ServingPair
  pub stable_fingerprint : Option String
  pub highest_accepted : ℕ
  pub supersedes : Option String
  pub ticket_reference : String
  pub source : Source
  pub security_hash : String
  pub created_at : Time

-- What `snapshot` returns: the part of an approval that the state decides.
pub record Baseline : Type 0 where
  pub candidate : Candidate
  pub stable : ServingPair
  pub stable_fingerprint : Option String
  pub highest_accepted : ℕ

pub record Authorization : Type 0 where
  pub evidence : Evidence
  pub evidence_hash : String
  pub authorized_at : Time
  pub expires_at : Time

pub data Status : Type 0 where
  accepted resolution_retry resolution_blocked build_required : Status
  ready_for_release approved_for_release : Status

pub record PendingItem : Type 0 where
  pub event : Event
  pub status : Status
  pub attempts : ℕ
  pub next_attempt : Time
  pub fingerprint : Option String
  pub build_request : Option BuildRequest
  pub pair : Option ServingPair
  pub error_type : Option String
  pub authorization : Option Authorization

pub data Phase : Type 0 where
  preparing ramp finalizing draining rollback blocked : Phase

pub record Active : Type 0 where
  pub pair : ServingPair
  pub fingerprint : String
  pub phase : Phase
  pub previous_stable : ServingPair
  pub previous_fingerprint : String
  pub deadline : Time
  pub stage_since : Option Time
  pub authorization : Option Authorization
  pub reason : Option String

pub record Route : Type 0 where
  pub weight : ℕ
  pub revision : ℕ

pub record Lease : Type 0 where
  pub owner : String
  pub until : Time

-- A value of the keyword arguments of `audit`.
pub data Field : Type 0 where
  absent : Field
  text : String → Field
  number : ℕ → Field
  a_pair : ServingPair → Field
  a_source : Source → Field

pub record AuditEntry : Type 0 where
  pub time : Time
  pub reason : String
  pub fields : List (String × Field)

pub record Failure : Type 0 where
  pub pair : ServingPair
  pub reason : Option String

pub record State : Type 0 where
  pub schema_version : ℕ
  pub model_name : String
  pub highest_accepted : ℕ
  pub pending : List PendingItem
  pub active : Option Active
  pub stable : Option ServingPair
  pub stable_fingerprint : Option String
  pub processed : List ServingPair
  pub failed : List Failure
  pub identities : List Identity
  pub audit : List AuditEntry
  pub route : Route
  pub lease : Option Lease
