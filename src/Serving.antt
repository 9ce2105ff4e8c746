-- ===== src/Serving.antt =====
-- How a pair is served: control_plane/autoscaling_v2.py, kserve_effects.py and runtime_catalog.py.
pub mod Scaling
pub mod Matching
pub mod Objects
pub mod Effects
pub mod Catalog
pub mod Rows
