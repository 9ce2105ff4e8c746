-- ===== src/Legacy/Watcher.antt =====
-- control_plane/watcher.py: the queue, the reconciliation with the registry, and the parts of the
-- loop of `main`.
pub mod Delivery
use ml_template.Prelude.Actions.{Action, return, lift, catch, ◌>>=◌, ◌>>◌}
use ml_template.Prelude.{
  ℕ, String, Option, some, check, value_error, List, [], ◌∷◌, if◌then◌else◌, ◌==◌, leb, ◌&&◌, ◌+◌,
  Option_eq, String_eq, ◌*◌, ℕ_eq,
}
use ml_template.Backend.{Backend, now}
use ml_template.Release.Types.{Time}
use ml_template.Release.Stages.{second}
use ml_template.Legacy.Types.{State, Release, Library}
use ml_template.Legacy.Candidates.{Image, candidate, event_candidate, reconcile_candidates}
use ml_template.Legacy.Store.{enqueue}

pub record Message : Type 0 where
  pub body : String
  pub receipt : String
  pub message_id : Option String

-- The attributes of a queue that the code reads: its numbers are those that `int` makes of the texts,
-- 0 if there is none.
pub record QueueAttributes : Type 0 where
  pub queue_arn : Option String
  pub retention : ℕ
  pub dead_letter_target : Option String
  pub max_receive_count : ℕ
  pub visible : ℕ

abbrev pub queue_arn_expected : String
queue_arn_expected = "arn:aws:sqs:ap-southeast-1:378457871131:mlflow-models-image-pushed"

abbrev pub dlq_arn : String
dlq_arn = "arn:aws:sqs:ap-southeast-1:378457871131:mlflow-models-image-pushed-dlq"

-- The calls of the queues and of the registry. The lease of a message, which `extend_visibility`
-- renews in a thread of its own, is not modelled.
pub record Services (W : Type 0) : Type 0 where
  pub delete_message : String → Action W (Unit {0})
  pub source_attributes : Action W QueueAttributes
  pub dead_attributes : Action W QueueAttributes
  -- all pages of `describe_images`
  pub describe_images : Action W (List Image)
  pub receive_message : Action W (List Message)

module _ (b : Backend State) (lib : Library) (services : Services b.World) where
  -- `handle_message`; the metrics and log entries are output only
  unfoldable pub handle_message : Message → Action b.World String
  handle_message m = do
    parsed ← lift (event_candidate lib m.body)
    result ← enqueue b lib parsed m.message_id
    services.delete_message m.receipt
    return result

  enqueue_all : List Release → Action b.World (List (Release × String))
  enqueue_all [] = return []
  enqueue_all (c ∷ rest) = do
    outcome ← enqueue b lib (candidate c) (some "ecr-reconcile")
    others ← enqueue_all rest
    return ((c, outcome) ∷ others)

  -- `reconcile`
  unfoldable pub reconcile : Action b.World (List (Release × String))
  unfolding enqueue_all
  reconcile = do images ← services.describe_images; enqueue_all (reconcile_candidates lib images)

  -- `check_queues`
  unfoldable pub check_queues : Action b.World ℕ
  check_queues = do
    source ← services.source_attributes
    lift (check (source.queue_arn == some queue_arn_expected) (value_error "Unexpected queue ARN"))
    lift
        (check (source.retention == 1209600) (value_error "Source queue retention must be 14 days"))
    lift (
        check (source.dead_letter_target == some dlq_arn && source.max_receive_count == 5)
          (value_error "Source redrive must target expected DLQ after 5 receives"))
    dead ← services.dead_attributes
    lift (
        check (dead.queue_arn == some dlq_arn && dead.retention == 1209600)
          (value_error "Unexpected DLQ ARN or retention"))
    return dead.visible

  -- A message whose handling raises stays in the queue.
  handle_messages : List Message → Action b.World (Unit {0})
  unfolding handle_message
  handle_messages [] = return tt
  handle_messages (m ∷ rest) = do
    catch (do handle_message m; return tt) (λ _. return tt)
    handle_messages rest

  check_when_due : Time → Action b.World Time
  check_when_due next = do
    t ← now b
    (if leb next t then (do check_queues; t' ← now b; return (t' + 60 * second)) else return next)

  -- an hour after a reconciliation, five minutes after one that failed
  reconcile_when_due : Time → Action b.World Time
  reconcile_when_due next = do
    t ← now b
    (if leb next t
        then catch (do reconcile; t' ← now b; return (t' + 3600 * second))
            (λ _. do t' ← now b; return (t' + 300 * second))
        else return next)
