-- ===== src/Traffic.antt =====
-- Weighted routing: `choose_track` of canary/router.py and `Routing` of control_plane/router.py.
pub mod Share
pub mod Routing
pub mod Fresh
pub mod Session
use ml_template.Release.Controller.{Lane, stable, canary}
use ml_template.Prelude.{ℕ, if◌then◌else◌, leb, ◌*◌, ◌%◌, ◌+◌}

-- `choose_track(index, percent)`
unfoldable pub choose_track : ℕ → ℕ → Lane
choose_track index percent = if leb 100 (index * percent % 100 + percent) then canary else stable
