-- ===== src/Release/Equality.antt =====
-- Python's `==` on the records of the release state: the names of the children, passed on.
mod Parts
mod Approvals
mod Items
unfoldable pub use Parts.{pair_beq, profile_beq, request_beq, identity_beq, event_beq, source_beq}
pub use Parts.*
unfoldable pub use Approvals.{
  candidate_beq, evidence_beq, baseline_beq, authorization_beq, status_beq,
}
pub use Approvals.*
unfoldable pub use Items.{item_progress_beq, item_result_beq, item_beq}
pub use Items.*
