-- ===== src/Canary/Run.antt =====
-- `set_weight` and `run` of canary/evaluator.py.
use ml_template.Prelude.Actions.{Action, return, raise, lift, when, catch, ◌>>=◌, ◌>>◌}
use ml_template.Prelude.{
  ℕ, Bool, Option, none, some, Error, if◌then◌else◌, ltb, eqb, List, not, check, false, true, ◌+◌,
  String, option_beq, other_error, ℕ_eq, suc, zero,
}
use ml_template.Release.Types.{Time}
use ml_template.Release.Stages.{next_weight}
use ml_template.Canary.Evaluator.{
  Demo, Judgement, wait, healthy, failing, start, rollback, rollback_failed, promote, healthy_at,
  timeout, now, pause, judge, Ending, rolled_back, timed_out, out_of_fuel,
}

abbrev pub second : Time
second = 1000000

module _ {W : Type 0} (demo : Demo W) (message_of : Error → String)
    (dwell poll duration : Time) where
  -- `set_weight`; a RuntimeError is `other_error`
  unfoldable pub set_weight : ℕ → Action W (Unit {0})
  set_weight value = do
    answer ← demo.post_weight value
    lift (check (option_beq answer (some value)) other_error)
    seen ← demo.state_weight
    lift (check (eqb seen value) other_error)

  -- one attempt to roll back, and whether it succeeded
  unfoldable pub attempt : ℕ → List String → ℕ → Action W Bool
  unfolding set_weight pause
  attempt current reasons n =
      catch (do set_weight 0; demo.write (rollback current reasons); return true)
        (λ e. do demo.write (rollback_failed n); pause demo message_of second; return false)

  -- `for attempt in range(3)`, from its attempt n on, with the attempts that are left
  unfoldable pub roll_back : ℕ → ℕ → List String → ℕ → Action W (Unit {0})
  unfolding attempt
  roll_back zero current reasons n = raise other_error
  roll_back (suc left) current reasons n = do
    done ← attempt current reasons n
    when (not done) (roll_back left current reasons (suc n))

  -- the end of a turn: the weight and the time of its change, none if the run is over
  unfoldable pub act : ℕ → Time → Judgement → Action W (Option (ℕ × Time))
  unfolding set_weight roll_back now
  act current changed wait = return (some (current, changed))
  act current changed (failing reasons) = do roll_back 3 current reasons 1; return none
  act current changed healthy =
      if ltb current 100
      then (do
        new ← lift (next_weight current)
        set_weight new
        t ← now demo message_of
        demo.write (promote current new)
        return (some (new, t)))
      else (do demo.write (healthy_at current); return (some (current, changed)))

  -- the body of `while`
  unfoldable pub turn : ℕ → Time → Action W (Option (ℕ × Time))
  unfolding pause judge act
  turn current changed = do
    pause demo message_of poll
    j ← judge demo message_of changed dwell
    act current changed j

  unfoldable pub follow : (ℕ → Time → Action W Ending) → Option (ℕ × Time) → Action W Ending
  follow next none = return rolled_back
  follow next (some (current, changed)) = next current changed

  -- `while`, with the number of turns that are allowed
  unfoldable pub loop : ℕ → Time → ℕ → Time → Action W Ending
  unfolding turn follow now
  loop zero started current changed = return out_of_fuel
  loop (suc n) started current changed = do
    t ← now demo message_of
    (if ltb t (started + duration)
        then (do next ← turn current changed; follow (loop n started) next)
        else (do demo.write (timeout current); return timed_out))

  -- `run`
  unfoldable pub run : ℕ → Action W Ending
  unfolding loop now
  run fuel = do
    current ← demo.state_weight
    lift (check (eqb current 10) other_error)
    t ← now demo message_of
    demo.write (start current)
    loop fuel t current t
