-- ===== src/Canary/Progress.antt =====
-- The clock in a run of the evaluator.
use ml_template.Prelude.Actions.{Action, bind-result, return, lift, ◌>>=◌, ◌>>◌}
use ml_template.Prelude.Growing.{
  Growing, Growing-return, Growing-raise, Growing-lift, Growing-if, Growing-when, Growing-bind,
  Growing-catch,
}
use ml_template.Prelude.{
  ℕ, ap, eqb, check, other_error, ok-injective, Bool, Option, none, some, Error, List, ◌∷◌, [],
  true, false, ◌+◌, String, ◌≤◌, ◌<◌, ◌*◌, ◌≡◌, ◌≢◌, ok, err, ltb, if◌then◌else◌, Result, suc, zero,
  arith,
}
use ml_template.Release.Types.{Time}
use ml_template.Canary.Evaluator.{
  Demo, Judgement, wait, healthy, failing, now, pause, judge, query, observe, screen, look_closer,
  unavailable, Event, promote, healthy_at, timeout, start, Ending, out_of_fuel, Metric, timed_out,
  judged, assess,
}
use ml_template.Canary.Run.{set_weight, attempt, roll_back, act, turn, follow, loop, run}

-- What the clock does: its readings never fall, whatever is called, and `sleep` lasts as long as it
-- was asked to. `reading` is the time of a world.
pub record Clock {W : Type 0} (demo : Demo W) : Type 0 where
  pub reading : W → Time
  pub reads : (w : W) → reading w ≤ (demo.monotonic w).0
  pub reads_on : (w : W) → (demo.monotonic w).0 ≤ reading (demo.monotonic w).1
  pub sleeps : (t : Time) (w : W) → reading w + t ≤ reading (demo.sleep t w)
  pub asks : (k : Metric) → Growing reading (demo.prometheus k)
  pub posts : (v : ℕ) → Growing reading (demo.post_weight v)
  pub views : Growing reading demo.state_weight
  pub writes : (e : Event) → Growing reading (demo.write e)

module _ {W : Type 0} (demo : Demo W) (clock : Clock demo) (message_of : Error → String) where
  now-Growing : Growing clock.reading (now demo message_of)
  unfolding now
  now-Growing = record {
    grows = λ w. let a = clock.reads w in let b = clock.reads_on w in omega arith;
  }

  pause-Growing : (t : Time) → Growing clock.reading (pause demo message_of t)
  unfolding pause
  pause-Growing t = record { grows = λ w. let a = clock.sleeps t w in omega arith }

  query-Growing : (k : Metric) → Growing clock.reading (query demo message_of k)
  unfolding query
  query-Growing k = Growing-bind _ _ (clock.asks k) λ a. Growing-lift _

  observe-Growing : Growing clock.reading (observe demo message_of)
  unfolding observe
  observe-Growing = Growing-bind _ _ (query-Growing _) λ v1.
      Growing-bind _ _ (query-Growing _) λ v2. Growing-bind _ _ (query-Growing _) λ v3.
        Growing-bind _ _ (query-Growing _) λ v4. Growing-bind _ _ (query-Growing _) λ v5.
          Growing-bind _ _ (query-Growing _) λ v6. Growing-bind _ _ (query-Growing _) λ v7.
            Growing-bind _ _ (query-Growing _)
              λ v8. Growing-bind _ _ (query-Growing _) λ v9. Growing-return _

  screen-Growing : Growing clock.reading (screen demo message_of)
  unfolding screen
  screen-Growing = Growing-bind _ _ (query-Growing _) λ v1. Growing-bind _ _ (query-Growing _) λ v2.
      Growing-bind _ _ (query-Growing _)
        λ v3. Growing-bind _ _ (query-Growing _) λ v4. Growing-return _

  look_closer-Growing :
      (changed dwell : Time) (reasons : List String)
      → Growing clock.reading (look_closer demo message_of changed dwell reasons)
  unfolding look_closer
  look_closer-Growing changed dwell (r ∷ rest) = Growing-return _
  look_closer-Growing changed dwell [] = Growing-bind _ _ now-Growing λ t.
      Growing-if (ltb t (changed + dwell)) _ _ (Growing-return wait)
        (Growing-bind _ _ observe-Growing λ m. Growing-return (judged (assess m)))

  judge-Growing :
      (changed dwell : Time) → Growing clock.reading (judge demo message_of changed dwell)
  unfolding judge unavailable
  judge-Growing changed dwell =
      Growing-catch _ _
        (Growing-bind _ _ screen-Growing λ reasons. look_closer-Growing changed dwell reasons)
        λ e. Growing-if _ _ _ (Growing-return _) (Growing-raise e)

  module _ (dwell poll duration : Time) where
    set_weight-Growing :
        (v : ℕ) → Growing clock.reading (set_weight demo message_of dwell poll duration v)
    unfolding set_weight
    set_weight-Growing v = Growing-bind _ _ (clock.posts v) λ answer.
        Growing-bind _ _ (Growing-lift _) λ u. Growing-bind _ _ clock.views λ seen. Growing-lift _

    attempt-Growing :
        (current : ℕ) (reasons : List String) (n : ℕ)
        → Growing clock.reading (attempt demo message_of dwell poll duration current reasons n)
    unfolding attempt
    attempt-Growing current reasons n =
        Growing-catch _ _
          (Growing-bind _ _ (set_weight-Growing 0)
            λ u. Growing-bind _ _ (clock.writes _) λ u. Growing-return true)
          λ e.
            Growing-bind _ _ (clock.writes _)
              λ u. Growing-bind _ _ (pause-Growing _) λ u. Growing-return false

    roll_back-Growing :
        (left current : ℕ) (reasons : List String) (n : ℕ)
        → Growing clock.reading
            (roll_back demo message_of dwell poll duration left current reasons n)
    unfolding roll_back
    roll_back-Growing zero current reasons n = Growing-raise _
    roll_back-Growing (suc left) current reasons n =
        Growing-bind _ _ (attempt-Growing current reasons n)
          λ done. Growing-when _ _ (roll_back-Growing left current reasons (suc n))

    act-Growing :
        (current : ℕ) (changed : Time) (j : Judgement)
        → Growing clock.reading (act demo message_of dwell poll duration current changed j)
    unfolding act
    act-Growing current changed wait = Growing-return _
    act-Growing current changed (failing reasons) =
        Growing-bind _ _ (roll_back-Growing 3 current reasons 1) λ u. Growing-return _
    act-Growing current changed healthy =
        Growing-if (ltb current 100) _ _
          (Growing-bind _ _ (Growing-lift _) λ new. Growing-bind _ _ (set_weight-Growing new) λ u.
            Growing-bind _ _ now-Growing λ t.
              Growing-bind _ _ (clock.writes (promote current new))
                λ u. Growing-return (some (new, t)))
          (Growing-bind _ _ (clock.writes (healthy_at current))
            λ u. Growing-return (some (current, changed)))

    -- A turn takes at least as long as its pause.
    turn-lasts :
        (current : ℕ) (changed : Time) (w : W)
        → clock.reading w + poll
          ≤ clock.reading (turn demo message_of dwell poll duration current changed w).1
    unfolding turn pause
    turn-lasts current changed w =
        let slept = clock.sleeps poll w in
        let rest : Growing clock.reading (
            judge demo message_of changed dwell >>= λ j.
            act demo message_of dwell poll duration current changed j) =
          Growing-bind _ _ (judge-Growing changed dwell) (λ j. act-Growing current changed j) in
        let later = rest.grows (demo.sleep poll w) in omega arith

    follow-Ends :
        (r : Result (Option (ℕ × Time))) (next : ℕ → Time → Action W Ending) (v : W)
        → ((c : ℕ) (t : Time) → (next c t v).0 ≢ ok out_of_fuel)
        → ((lift r >>= follow demo message_of dwell poll duration next) v).0 ≢ ok out_of_fuel
    unfolding follow
    follow-Ends (err e) next v ends h = cc
    follow-Ends (ok none) next v ends h = cc
    follow-Ends (ok (some (c, t))) next v ends h = ends c t h

    timed_out-Ends :
        (r : Result (Unit {0})) (v : W) → ((lift r >> return timed_out) v).0 ≢ ok out_of_fuel
    timed_out-Ends (err e) v h = cc
    timed_out-Ends (ok u) v h = cc

    choice-Ends :
        (b : Bool) (m n : Action W Ending) (v : W)
        → (m v).0 ≢ ok out_of_fuel
        → (n v).0 ≢ ok out_of_fuel
        → ((if b then m else n) v).0 ≢ ok out_of_fuel
    choice-Ends true m n v k l = k
    choice-Ends false m n v k l = l

    -- A loop with more turns than fit into what is left of the duration does not use them up.
    loop-Ends :
        (n : ℕ) (started : Time) (current : ℕ) (changed : Time) (w : W)
        → started + duration < clock.reading w + n * poll
        → (loop demo message_of dwell poll duration (suc n) started current changed w).0
          ≢ ok out_of_fuel
    unfolding loop now
    loop-Ends zero started current changed w enough =
        let t = clock.reads w in
        let late : ltb (demo.monotonic w).0 (started + duration) ≡ false = ground arith in
        rw late (timed_out-Ends (demo.write (timeout current) (demo.monotonic w).1).0 _)
    loop-Ends (suc n) started current changed w enough =
        let v = (demo.monotonic w).1 in
        let r = turn demo message_of dwell poll duration current changed v in
        let t = clock.reads w in
        let on = clock.reads_on w in
        let lasts = turn-lasts current changed v in
        let left : started + duration < clock.reading r.1 + n * poll = omega arith in
        let next = loop demo message_of dwell poll duration (suc n) started in
        let rest : Action W Ending =
          (turn demo message_of dwell poll duration current changed
            >>= follow demo message_of dwell poll duration next) in
        let stop : Action W Ending = (demo.write (timeout current) >> return timed_out) in
        choice-Ends (ltb (demo.monotonic w).0 (started + duration)) rest stop v
          (follow-Ends r.0 next r.1 (λ c u. loop-Ends n started c u r.1 left))
          (timed_out-Ends (demo.write (timeout current) v).0 (demo.write (timeout current) v).1)

    now-before : (w v : W) (t : Time) → now demo message_of w ≡ (ok t, v) → t ≤ clock.reading v
    unfolding now
    now-before w v t e =
        let read : (demo.monotonic w).0 ≡ t = ok-injective (ap (λ p. p.0) e) in
        let world : (demo.monotonic w).1 ≡ v = ap (λ p. p.1) e in
        rw (read, world) at (clock.reads_on w)

    -- If the readings of the clock never fall and a sleep lasts as long as it was asked to, a run with
    -- a turn more than the pauses that fit into the duration does not use its turns up.
    pub run-Ends :
        (n : ℕ) (w : W)
        → duration < n * poll
        → (run demo message_of dwell poll duration (suc n) w).0 ≢ ok out_of_fuel
    unfolding run
    run-Ends n w enough h =
        let go : ℕ → Time → Action W Ending = (λ current t.
          demo.write (start current)
          >> loop demo message_of dwell poll duration (suc n) t current t) in
        let timed : ℕ → Action W Ending = (λ current. now demo message_of >>= go current) in
        let ten : ℕ → Action W (Unit {0}) =
          (λ current. lift (check (eqb current 10) other_error)) in
        let (current, w1, seen, h1) =
          bind-result demo.state_weight (λ c. ten c >> timed c) w out_of_fuel h in
        let (u, w2, is_ten, h2) =
          bind-result (ten current) (λ _. timed current) w1 out_of_fuel h1 in
        let (t, w3, told, h3) = bind-result (now demo message_of) (go current) w2 out_of_fuel h2 in
        let (u', w4, wrote, h4) =
          bind-result (demo.write (start current))
            (λ _. loop demo message_of dwell poll duration (suc n) t current t) w3 out_of_fuel h3 in
        let before = now-before w2 w3 t told in
        let on = (clock.writes (start current)).grows w3 in
        let world : (demo.write (start current) w3).1 ≡ w4 = ap (λ p. p.1) wrote in
        let later : clock.reading w3 ≤ clock.reading w4 = rw world at on in
        let room : t + duration < clock.reading w4 + n * poll = omega arith in
        loop-Ends n t current t w4 room h4
