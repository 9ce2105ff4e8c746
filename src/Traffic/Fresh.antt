-- ===== src/Traffic/Fresh.antt =====
-- When the router sends a request to the canary.
use ml_template.Prelude.{◌≡◌, some, ◌≤◌, ◌+◌, ◌*◌, ◌<◌, true, Option-cases, inl, inr, arith}
use ml_template.Traffic.Routing.{choose, status, Routing, is_attended}
use ml_template.Traffic.{choose_track}
use ml_template.Release.Types.{Time, State}
use ml_template.Release.Controller.{canary}

-- A request goes to the canary only while the state was read in the last ten seconds, its route has
-- a positive weight, and a release in it has a lease that has not run out.
pub choose-canary :
    (t1 t2 : Time) (r : Routing) {next : Routing}
    → choose t1 t2 r ≡ (some canary, next)
    → (s : State) × (r.state ≡ some s)
      × (t1 ≤ r.updated + 10 * 1000000)
      × (0 < s.route.weight)
      × (is_attended s.active s.lease t2 ≡ true)
unfolding choose status choose_track
choose-canary t1 t2 r e = elim (Option-cases r.state) [
  | inl missing ↦ let bad = (rw (choose, missing) at e) in cc
  | inr (s, there) ↦
      let seen = (rw (choose, there) at e) in (s, there, ground arith, ground arith, ground arith)
]
