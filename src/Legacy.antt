-- ===== src/Legacy.antt =====
-- The release of the first control plane: control_plane/state.py, controller.py and watcher.py.
pub mod Types
pub mod Candidates
pub mod Queue
pub mod Store
pub mod Stages
pub mod Controller
pub mod Effects
pub mod Tick
pub mod Watcher
pub mod Steps
