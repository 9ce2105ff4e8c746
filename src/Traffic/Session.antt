-- ===== src/Traffic/Session.antt =====
-- The router between two route changes: its thread that reads the state, and its requests.
use ml_template.Traffic.Routing.{Routing, set, choose}
use ml_template.Traffic.Share.{is_canary}
use ml_template.Release.Controller.{Lane}
use ml_template.Release.Types.{State, Time, Route}
use ml_template.Prelude.{ℕ, List, [], ◌∷◌, Option, some, none, ◌≡◌, ◌+◌, ℕ_eq}

-- A state that was read at a time, and a request with the two readings of the clock it takes.
pub data Event : Type 0 where
  reads : State → Time → Event
  asks : Time → Time → Event

served_by : Option Lane → ℕ
served_by none = 0
served_by (some lane) = 1

canary_by : Option Lane → ℕ
unfolding is_canary
canary_by none = 0
canary_by (some lane) = is_canary lane

-- The requests that got a lane, and those among them that got the canary.
unfoldable pub counts : List Event → Routing → ℕ × ℕ
unfolding served_by canary_by
counts [] r = (0, 0)
counts (reads s t ∷ rest) r = counts rest (set s t r)
counts (asks t1 t2 ∷ rest) r =
    let (lane, next) = choose t1 t2 r in
    let (served, to_canary) = counts rest next in
    (served_by lane + served, canary_by lane + to_canary)

-- Every state that is read has the route.
abbrev pub Keeps : Route → List Event → Type 0
Keeps route [] = Unit
Keeps route (reads s t ∷ rest) = (s.route ≡ route) × Keeps route rest
Keeps route (asks t1 t2 ∷ rest) = Keeps route rest

-- The router holds a state with the route, at an index.
Holds : Route → ℕ → Routing → Type 0
Holds route index r =
    ((s : State) × (r.state ≡ some s) × (s.route ≡ route))
    × (r.revision ≡ some route.revision)
    × (r.sequence ≡ index)
