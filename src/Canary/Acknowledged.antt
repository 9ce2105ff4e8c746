-- ===== src/Canary/Acknowledged.antt =====
-- What a run of the evaluator that was rolled back did last.
use ml_template.Prelude.Actions.{Action, return, lift, when, ◌>>=◌, ◌>>◌, bind-ok, lift-ok}
use ml_template.Prelude.Never.{Never, Never-return, Never-bind, if-cases, catch-own}
use ml_template.Prelude.{
  ℕ, ◌∙◌, ◌⊎◌, inl, inr, Bool, Option, none, some, Error, if◌then◌else◌, ltb, eqb, List, check,
  check-ok, true, false, ◌+◌, String, ◌≡◌, ok, ap, refl, option_beq, option_beq_iff, other_error,
  not, ◌∙◌, suc, arith, zero, ℕ_eq,
}
use ml_template.Release.Types.{Time}
use ml_template.Release.Stages.{next_weight}
use ml_template.Canary.Evaluator.{
  Demo, Judgement, wait, healthy, failing, now, pause, judge, rollback, Ending, rolled_back,
  timed_out, timeout, start, rollback_failed, promote, healthy_at,
}
use ml_template.Canary.Run.{set_weight, attempt, roll_back, act, turn, follow, loop, run, second}

-- The router answered that the weight is 0, read 0 back, and the rollback was written.
abbrev pub Acknowledged : {W : Type 0} → Demo W → W → Type 0
Acknowledged {W} demo after =
    (before : W) × (posted : W) × (seen : W) × (current : ℕ) × (reasons : List String)
    × (demo.post_weight 0 before ≡ (ok (some 0), posted))
    × (demo.state_weight posted ≡ (ok 0, seen))
    × (demo.write (rollback current reasons) seen ≡ (ok tt, after))

module _ {W : Type 0} (demo : Demo W) (message_of : Error → String)
    (dwell poll duration : Time) where
  set_weight-ok :
      (value : ℕ) (w w' : W) (u : Unit {0})
      → set_weight demo message_of dwell poll duration value w ≡ (ok u, w')
      → (posted : W) × (demo.post_weight value w ≡ (ok (some value), posted))
        × (demo.state_weight posted ≡ (ok value, w'))
  unfolding set_weight
  set_weight-ok value w w' u h =
      let read_back : Action W (Unit {0}) =
        (demo.state_weight >>= λ seen. lift (check (eqb seen value) other_error)) in
      let (answer, v1, posted, h1) =
        bind-ok (demo.post_weight value)
          (λ a. lift (check (option_beq a (some value)) other_error) >> read_back) w h in
      let (u1, v2, known, h2) =
        bind-ok (lift (check (option_beq answer (some value)) other_error)) (λ _. read_back) v1
          h1 in
      let (e1, s1) = lift-ok (check (option_beq answer (some value)) other_error) v1 known in
      let named = (option_beq_iff answer (some value)).0 (check-ok _ other_error e1) in
      let (seen, v3, view, h3) =
        bind-ok demo.state_weight (λ seen. lift (check (eqb seen value) other_error)) v2 h2 in
      let (e2, s2) = lift-ok (check (eqb seen value) other_error) v3 h3 in
      let found : eqb seen value ≡ true = check-ok _ other_error e2 in
      let same : seen ≡ value = ground arith in
      (v1, posted ∙ ap (λ a. (ok a, v1)) named, rw (← s1, same, s2) at view)

  attempt-Acknowledged :
      (current : ℕ) (reasons : List String) (n : ℕ) (w w' : W)
      → attempt demo message_of dwell poll duration current reasons n w ≡ (ok true, w')
      → Acknowledged demo w'
  unfolding attempt
  attempt-Acknowledged current reasons n w w' h =
      let write : Action W Bool = (demo.write (rollback current reasons) >> return true) in
      let failed : Error → Action W Bool =
        (λ e. demo.write (rollback_failed n) >> (pause demo message_of second >> return false)) in
      let never : (e : Error) → Never true (failed e) = (λ e.
        Never-bind true (demo.write (rollback_failed n))
          (λ _. pause demo message_of second >> return false)
          (λ _.
            Never-bind true (pause demo message_of second) (λ _. return false)
              (λ _. Never-return true false (λ k. cc)))) in
      let own =
        catch-own (set_weight demo message_of dwell poll duration 0 >> write) failed w w' true
          (λ e v. never e v w') h in
      let (u, v, weight, rest) =
        bind-ok (set_weight demo message_of dwell poll duration 0) (λ _. write) w own in
      let (posted, answered, read) = set_weight-ok 0 w v u weight in
      let (u', v', written, last) =
        bind-ok (demo.write (rollback current reasons)) (λ _. return true) v rest in
      (w, posted, v, current, reasons, answered, read, rw (ap (λ p. p.1) last) at written)

  roll_back-Acknowledged :
      (left current : ℕ) (reasons : List String) (n : ℕ) (w w' : W) (u : Unit {0})
      → roll_back demo message_of dwell poll duration left current reasons n w ≡ (ok u, w')
      → Acknowledged demo w'
  unfolding roll_back
  roll_back-Acknowledged zero current reasons n w w' u h = cc
  roll_back-Acknowledged (suc left) current reasons n w w' u h =
      let (done, v, tried, rest) =
        bind-ok (attempt demo message_of dwell poll duration current reasons n)
          (λ done.
            when (not done)
              (roll_back demo message_of dwell poll duration left current reasons (suc n)))
          w h in
      finished done v tried rest
        (λ again. roll_back-Acknowledged left current reasons (suc n) v w' u again)
    where
      finished :
          (done : Bool) (v : W)
          → attempt demo message_of dwell poll duration current reasons n w ≡ (ok done, v)
          → when
              (not done)
              (roll_back demo message_of dwell poll duration left current reasons (suc n))
              v
            ≡ (ok u, w')
          → (roll_back demo message_of dwell poll duration left current reasons (suc n) v
                ≡ (ok u, w')
              → Acknowledged demo w')
          → Acknowledged demo w'
      finished true v tried rest again =
          attempt-Acknowledged current reasons n w w' (rw (ap (λ p. p.1) rest) at tried)
      finished false v tried rest again = again rest

  -- A turn with healthy metrics does not end the run.
  go_on-Never :
      (current : ℕ) (changed : Time)
      → Never none (act demo message_of dwell poll duration current changed healthy)
  unfolding act
  go_on-Never current changed w w' h =
      let set = set_weight demo message_of dwell poll duration in
      let noted : ℕ → Time → Action W (Option (ℕ × Time)) =
        (λ new t. demo.write (promote current new) >> return (some (new, t))) in
      let timed : ℕ → Action W (Option (ℕ × Time)) = (λ new. now demo message_of >>= noted new) in
      let raised : Action W (Option (ℕ × Time)) =
        (lift (next_weight current) >>= λ new. set new >> timed new) in
      let kept : Action W (Option (ℕ × Time)) =
        (demo.write (healthy_at current) >> return (some (current, changed))) in
      elim (if-cases (ltb current 100) raised kept w (ok none, w') h) [
        | inl k ↦
            Never-bind none (lift (next_weight current)) (λ new. set new >> timed new)
              (λ new.
                Never-bind none (set new) (λ _. timed new)
                  (λ _. Never-bind none (now demo message_of) (noted new) (λ t.
                    Never-bind none (demo.write (promote current new)) (λ _. return (some (new, t)))
                      (λ _. Never-return none (some (new, t)) (λ e. cc)))))
              w w' k
        | inr k ↦
            Never-bind none (demo.write (healthy_at current))
              (λ _. return (some (current, changed)))
              (λ _. Never-return none (some (current, changed)) (λ e. cc)) w w' k
      ]

  act-Acknowledged :
      (current : ℕ) (changed : Time) (j : Judgement) (w w' : W)
      → act demo message_of dwell poll duration current changed j w ≡ (ok none, w')
      → Acknowledged demo w'
  unfolding act
  act-Acknowledged current changed wait w w' h = cc
  act-Acknowledged current changed (failing reasons) w w' h =
      let (u, v, back, rest) =
        bind-ok (roll_back demo message_of dwell poll duration 3 current reasons 1)
          (λ _. return none) w h in
      rw (ap (λ p. p.1) rest) at (roll_back-Acknowledged 3 current reasons 1 w v u back)
  act-Acknowledged current changed healthy w w' h = absurd (go_on-Never current changed w w' h)

  turn-Acknowledged :
      (current : ℕ) (changed : Time) (w w' : W)
      → turn demo message_of dwell poll duration current changed w ≡ (ok none, w')
      → Acknowledged demo w'
  unfolding turn pause
  turn-Acknowledged current changed w w' h =
      let (j, v, judged, rest) =
        bind-ok (judge demo message_of changed dwell)
          (λ j. act demo message_of dwell poll duration current changed j) (demo.sleep poll w) h in
      act-Acknowledged current changed j v w' rest

  follow-cases :
      (o : Option (ℕ × Time)) (next : ℕ → Time → Action W Ending) (v w' : W)
      → follow demo message_of dwell poll duration next o v ≡ (ok rolled_back, w')
      → ((o ≡ none) × (v ≡ w')) ⊎ ((c : ℕ) × (t : Time) × (next c t v ≡ (ok rolled_back, w')))
  unfolding follow
  follow-cases none next v w' h = inl (refl, ap (λ p. p.1) h)
  follow-cases (some (c, t)) next v w' h = inr (c, t, h)

  loop-Acknowledged :
      (n : ℕ) (started : Time) (current : ℕ) (changed : Time) (w w' : W)
      → loop demo message_of dwell poll duration n started current changed w ≡ (ok rolled_back, w')
      → Acknowledged demo w'
  unfolding loop
  loop-Acknowledged zero started current changed w w' h = cc
  loop-Acknowledged (suc n) started current changed w w' h =
      let next = loop demo message_of dwell poll duration n started in
      let step = turn demo message_of dwell poll duration current changed in
      let go_on : Action W Ending = (step >>= follow demo message_of dwell poll duration next) in
      let stop : Action W Ending = (demo.write (timeout current) >> return timed_out) in
      let (t, v, told, h1) =
        bind-ok (now demo message_of) (λ t. if ltb t (started + duration) then go_on else stop) w
          h in
      elim (if-cases (ltb t (started + duration)) go_on stop v (ok rolled_back, w') h1) [
        | inr k ↦ absurd (
            Never-bind rolled_back (demo.write (timeout current)) (λ _. return timed_out)
              (λ _. Never-return rolled_back timed_out (λ e. cc)) v w' k)
        | inl k ↦
            let (o, v', took, rest) =
              bind-ok step (follow demo message_of dwell poll duration next) v k in
            elim (follow-cases o next v' w' rest) [
              | inl over ↦ turn-Acknowledged current changed v w' (rw (over.0, over.1) at took)
              | inr (c, u, again) ↦ loop-Acknowledged n started c u v' w' again
            ]
      ]

  -- When a run ends rolled back, the last that it did was to set the weight 0, which the router
  -- confirmed, to read 0 back from the router, and to write the rollback down.
  pub run-Acknowledged :
      (fuel : ℕ) (w w' : W)
      → run demo message_of dwell poll duration fuel w ≡ (ok rolled_back, w')
      → Acknowledged demo w'
  unfolding run
  run-Acknowledged fuel w w' h =
      let go : ℕ → Time → Action W Ending = (λ current t.
        demo.write (start current) >> loop demo message_of dwell poll duration fuel t current t) in
      let timed : ℕ → Action W Ending = (λ current. now demo message_of >>= go current) in
      let ten : ℕ → Action W (Unit {0}) = (λ current. lift (check (eqb current 10) other_error)) in
      let (current, w1, seen, h1) = bind-ok demo.state_weight (λ c. ten c >> timed c) w h in
      let (u, w2, is_ten, h2) = bind-ok (ten current) (λ _. timed current) w1 h1 in
      let (t, w3, told, h3) = bind-ok (now demo message_of) (go current) w2 h2 in
      let (u', w4, wrote, h4) =
        bind-ok (demo.write (start current))
          (λ _. loop demo message_of dwell poll duration fuel t current t) w3 h3 in
      loop-Acknowledged fuel t current t w4 w' h4
