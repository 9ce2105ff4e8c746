-- ===== src/Traffic/Routing.antt =====
-- `Routing` of control_plane/router.py: the last durable state that the router has read.
use ml_template.Traffic.{choose_track}
use ml_template.Release.Types.{State, Time, Lease, Active}
use ml_template.Release.Controller.{Lane}
use ml_template.Prelude.{
  ℕ_eq, Option, none, if◌then◌else◌, Bool, ℕ, option_beq, true, false, some, ltb, leb, ◌+◌, ◌*◌,
  ◌&&◌,
}

-- `revision` is none before the first state (-1 in the code).
pub record Routing : Type 0 where
  pub state : Option State
  pub updated : Time
  pub sequence : ℕ
  pub revision : Option ℕ

abbrev pub fresh : Routing
fresh = record { state = none; updated = 0; sequence = 0; revision = none }

-- `set`, at a reading of the clock
unfoldable pub set : State → Time → Routing → Routing
set s t r =
    if option_beq (some s.route.revision) r.revision
    then record r { state = some s; updated = t }
    else record { state = some s; updated = t; sequence = 0; revision = some s.route.revision }

pub record Status : Type 0 where
  pub ready : Bool
  pub weight : ℕ
  pub revision : Option ℕ

-- `not active or (lease and lease["until"] > self.clock())`
unfoldable pub is_attended : Option Active → Option Lease → Time → Bool
is_attended none lease t = true
is_attended (some a) none t = false
is_attended (some a) (some l) t = ltb t l.until

-- `status`: a reading of the clock for the age, and one for the lease
unfoldable pub status : Time → Time → Routing → Status
unfolding is_attended
status t1 t2 r = elim r.state [
  | none ↦ record { ready = false; weight = 0; revision = none }
  | some s ↦
      let ready = leb t1 (r.updated + 10 * 1000000) && is_attended s.active s.lease t2 in
      record { ready = ready; weight = if ready then s.route.weight else 0; revision = r.revision }
]

-- `choose`
unfoldable pub choose : Time → Time → Routing → Option Lane × Routing
unfolding status
choose t1 t2 r =
    let now = status t1 t2 r in
    if now.ready
    then (some (choose_track r.sequence now.weight), record r { sequence = r.sequence + 1 })
    else (none, r)
