-- ===== src/Service.antt =====
-- The inference service: src/model_service.
pub mod Adapter
pub mod Answers
pub mod Artifact
pub mod Validation
pub mod Requests
pub mod Loading
