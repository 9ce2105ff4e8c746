-- ===== src/Release/Equality/Items.antt =====
-- Python's `==` on pending items.
use mathlib.Core.Bool.{◌&&◌}
use ml_template.Prelude.{
  Bool, true, refl, ◌≡◌, ◌↔◌, arith, Eq, ◌==◌, ==_iff, ℕ_eq, String_eq, and_iff,
}
use ml_template.Prelude.{Option_eq, List_eq}
use ml_template.Release.Types.{PendingItem}
use ml_template.Release.Equality.Parts.{
  ServingPair_eq, RuntimeProfile_eq, BuildRequest_eq, Identity_eq, Event_eq, Source_eq,
}
use ml_template.Release.Equality.Approvals.{
  Candidate_eq, Evidence_eq, Baseline_eq, Authorization_eq, Status_eq,
}

unfoldable pub item_progress_beq : PendingItem → PendingItem → Bool
item_progress_beq a b =
    a.event == b.event
    && a.status == b.status
    && a.attempts == b.attempts
    && a.next_attempt == b.next_attempt
    && a.error_type == b.error_type

item_progress_beq_iff :
    (a b : PendingItem)
    → (item_progress_beq a b ≡ true) ↔ (
        (a.event ≡ b.event)
        × (a.status ≡ b.status)
        × (a.attempts ≡ b.attempts)
        × (a.next_attempt ≡ b.next_attempt)
        × (a.error_type ≡ b.error_type))
unfolding item_progress_beq
item_progress_beq_iff a b = ground (
  arith,
  ==_iff a.event b.event,
  ==_iff a.status b.status,
  ==_iff a.attempts b.attempts,
  ==_iff a.next_attempt b.next_attempt,
  ==_iff a.error_type b.error_type,
)

unfoldable pub item_result_beq : PendingItem → PendingItem → Bool
item_result_beq a b =
    a.fingerprint == b.fingerprint
    && a.build_request == b.build_request
    && a.pair == b.pair
    && a.authorization == b.authorization

item_result_beq_iff :
    (a b : PendingItem)
    → (item_result_beq a b ≡ true) ↔ (
        (a.fingerprint ≡ b.fingerprint)
        × (a.build_request ≡ b.build_request)
        × (a.pair ≡ b.pair)
        × (a.authorization ≡ b.authorization))
unfolding item_result_beq
item_result_beq_iff a b = ground (
  arith,
  ==_iff a.fingerprint b.fingerprint,
  ==_iff a.build_request b.build_request,
  ==_iff a.pair b.pair,
  ==_iff a.authorization b.authorization,
)

unfoldable pub item_beq : PendingItem → PendingItem → Bool
unfolding item_progress_beq item_result_beq
item_beq a b = item_progress_beq a b && item_result_beq a b

item-path :
    (a b : PendingItem)
    → (a.event ≡ b.event)
      × (a.status ≡ b.status)
      × (a.attempts ≡ b.attempts)
      × (a.next_attempt ≡ b.next_attempt)
      × (a.error_type ≡ b.error_type)
    → (a.fingerprint ≡ b.fingerprint)
      × (a.build_request ≡ b.build_request)
      × (a.pair ≡ b.pair)
      × (a.authorization ≡ b.authorization)
    → a ≡ b
item-path a b p q = λ i. record {
  event = p.0 i;
  status = p.1 i;
  attempts = p.2 i;
  next_attempt = p.3 i;
  fingerprint = q.0 i;
  build_request = q.1 i;
  pair = q.2 i;
  error_type = p.4 i;
  authorization = q.3 i;
}

item_beq-path : (a b : PendingItem) → item_beq a b ≡ true → a ≡ b
unfolding item_beq
item_beq-path a b h =
    let both = (and_iff (item_progress_beq a b) (item_result_beq a b)).0 h in
    item-path a b ((item_progress_beq_iff a b).0 both.0) ((item_result_beq_iff a b).0 both.1)

item_beq_refl : (a : PendingItem) → item_beq a a ≡ true
unfolding item_beq
item_beq_refl a = (and_iff _ _).1 (
  (item_progress_beq_iff a a).1 (refl, refl, refl, refl, refl),
  (item_result_beq_iff a a).1 (refl, refl, refl, refl),
)

pub item_beq_iff : (a b : PendingItem) → (item_beq a b ≡ true) ↔ (a ≡ b)
item_beq_iff a b = (item_beq-path a b, λ e. rw e (item_beq_refl b))

instance abbrev pub PendingItem_eq : Eq PendingItem
PendingItem_eq = record { beq = item_beq; beq_iff = item_beq_iff }
