-- ===== src/Runtime.antt =====
-- The serving runtime of an artifact: control_plane/runtime_resolver.py and build_contract.py.
pub mod Requirements
pub mod Python
pub mod Resolver
pub mod Reuse
