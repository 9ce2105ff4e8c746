-- ===== src/Tests/Legacy.antt =====
-- The first control plane: an image is accepted, chosen and queued.
use ml_template.Legacy.Types
use ml_template.Legacy.Types.{Value, entry, end, object, State, Release, Library, epoch}
use ml_template.Legacy.Watcher.{Services, handle_message}
use ml_template.Legacy.Watcher.Delivery.{handled-Committed}
use ml_template.Legacy.Store.{ingest_now, enqueue, update}
use ml_template.Legacy.Store.Linear.{Committed}
use ml_template.Prelude.{
  ◌≡◌, ok, refl, some, none, ◌∷◌, [], ◌⊎◌, ◌≤◌, if◌then◌else◌, leb, last_n, ◌&&◌, ◌-◌, list_beq,
  strip_prefix, other_error,
}
use mathlib.Core.List.{Memᴰ}
use ml_template.Release.Types.{absent, text}
use ml_template.Legacy.Candidates.{
  Image, candidate, all_candidates, reconcile_candidates, parse_candidate, highest_version, latest,
  Parsed, event_candidate,
}
use ml_template.Legacy.Candidates.Choice.{reconcile_candidates-Highest}
use ml_template.Legacy.Queue.{initial_state, ingest, audit}
use ml_template.Legacy.Steps.{initial, after, ingested}
use ml_template.Legacy.Steps.Keeping.{IsBounded}
use ml_template.Legacy.Steps.Bounds.{Reachable-IsBounded}
use ml_template.Tests.Data.{digest}
use ml_template.Release.Pairs.{is_digest}
use ml_template.Backend.Memory.{Memory, memory, memory_IsCas}
use ml_template.Prelude.Actions.{return, raise}
use ml_template.Backend.{now}

abbrev pub release : Release
release = record { version = 2; digest = digest; source_time = epoch }

abbrev pub queued : State
queued = record initial_state {
  pending = release ∷ [];
  audit =
      (record {
        time = 7;
        reason = "accepted";
        fields = ("event_id", absent) ∷ ("digest", text digest) ∷ [];
      })
      ∷ [];
}

pub accepts : ingest (candidate release) none 7 initial_state ≡ ok ("accepted", queued)
unfolding ingest initial_state audit last_n
accepts = refl

Reachable-IsBounded_example : IsBounded queued
Reachable-IsBounded_example =
    Reachable-IsBounded (after initial (ingested (candidate release) none 7 accepts))

-- The event of a push.
abbrev push : Value
push = object (
    entry "detail-type" (Types.text "ECR Image Action") (
      entry "detail"
        (object (
          entry "action-type" (Types.text "PUSH") (
            entry "result" (Types.text "SUCCESS") (
              entry "repository-name" (Types.text "mlflow-models") (
                entry "image-tag" (Types.text "credit-risk-classifier-v2")
                  (entry "image-digest" (Types.text digest) end))))))
        end))

-- The digits of ASCII, and a push of the image.
abbrev pub library : Library
library = record {
  json_loads = λ s. ok push;
  timestamp = λ s. some epoch;
  digit_value = λ c. if leb 48 c && leb c 57 then some (c - 48) else none;
  state_size = λ s. 1000;
}

abbrev image : Image
image = record {
  pushed_at = none;
  tags = "credit-risk-classifier-v2" ∷ "latest" ∷ [];
  digest = some digest;
}

chooses : reconcile_candidates library (image ∷ []) ≡ release ∷ []
unfolding reconcile_candidates all_candidates parse_candidate list_beq is_digest strip_prefix
    highest_version latest
chooses = refl

reconcile_candidates-Highest_example :
    ((all_candidates library (image ∷ []) ≡ []) × (reconcile_candidates library (image ∷ []) ≡ []))
    ⊎ ((c : Release) × (reconcile_candidates library (image ∷ []) ≡ c ∷ [])
        × Memᴰ c (all_candidates library (image ∷ []))
        × ((x : Release) → Memᴰ x (all_candidates library (image ∷ [])) → x.version ≤ c.version))
reconcile_candidates-Highest_example = reconcile_candidates-Highest library (image ∷ [])

abbrev services : Services (Memory State)
services = record {
  delete_message = λ receipt. return tt;
  source_attributes = raise other_error;
  dead_attributes = raise other_error;
  describe_images = return (image ∷ []);
  receive_message = return [];
}

abbrev start : Memory State
start = record { states = initial_state ∷ []; time = 7 }

abbrev pub stored : Memory State
stored = record { states = queued ∷ initial_state ∷ []; time = 1000007 }

handles :
    handle_message
      (memory State)
      library
      services
      (record { body = "{}"; receipt = "r"; message_id = none })
      start
    ≡ (ok "accepted", stored)
unfolding handle_message event_candidate enqueue update now ingest parse_candidate list_beq
    is_digest strip_prefix initial_state audit last_n
handles = refl

handled-Committed_example :
    (parsed : Parsed) × (v : Memory State) × (event_candidate library "{}" ≡ ok parsed)
    × Committed memory_IsCas library
        (ingest_now (memory State) library parsed none)
        "accepted"
        start
        v
    × (services.delete_message "r" v ≡ (ok tt, stored))
handled-Committed_example =
    handled-Committed memory_IsCas library services
      (record { body = "{}"; receipt = "r"; message_id = none }) start handles
