-- ===== src/Legacy/Store/Keeping.antt =====
-- What an update of the first control plane's store writes.
use ml_template.Prelude.Actions.{Action, lift, lift-ok}
use ml_template.Legacy.Types.{State, Library}
use ml_template.Backend.{Backend, IsCas}
use ml_template.Backend.Keeping.{
  Keeping, Keeping-return, Keeping-raise, Kept, Kept-trans, Kept-of, Keeping-of, Kept-bind,
  Keeping-read_state, Keeping-lift,
}
use ml_template.Legacy.Store.{Mutation, finish, update, write, cycle, check_size}
use ml_template.Backend.Chains.{Peers, At, At-Unique, At-Later}
use ml_template.Prelude.{◌≡◌, ok, Result, err, conflict, ℕ, subst, suc, zero, ap, inl, refl}
use ml_template.Backend.Writes.{read_top}

module _ {b : Backend State} (c : IsCas b) (lib : Library) (R : State → State → Type 0) where
  -- A mutation that looks at the clock at most, and whose result stands in the relation.
  pub record Moving {A : Type 0} (mutate : Mutation b lib A) : Type 0 where
    pub keeps : (s : State) → Keeping c R (mutate s)
    pub moves :
        (s : State) (w : b.World) (a : A) (next : State) → (mutate s w).0 ≡ ok (a, next) → R s next

module _ {b : Backend State} {c : IsCas b} {R : State → State → Type 0} (p : Peers c R)
    (lib : Library) where
  finish-Keeping :
      {A : Type 0} (a : A) (again : Action b.World A) (r : Result (Unit {0}))
      → Keeping c R again
      → Keeping c R (finish b lib a again r)
  unfolding finish
  finish-Keeping a again (err conflict) k = k
  finish-Keeping a again (ok u) k = Keeping-return a
  finish-Keeping a again (err e) k = Keeping-raise e

  write-Kept :
      (r : ℕ) {A : Type 0} (a : A) (s next : State) (again : Action b.World A) (w : b.World)
      → Keeping c R again
      → At r s (c.versions w)
      → R s next
      → Kept c R w (write b lib r a next again w).1
  unfolding write
  write-Kept r a s next again w k there rel =
      let (result, v) = b.write_state r next w in
      let kept = c.write_later r next w in
      Kept-trans c R w v (finish b lib a again result v).1
        (
          kept,
          λ chain. p.write_Chain r next w chain (λ x on.
              subst (λ y. R y next)
                (At-Unique r s x (c.versions v) (c.unique v) (At-Later r s there kept) on) rel),
        )
        (Kept-of c R (finish b lib a again result) (finish-Keeping a again result k) v)

  module _ {A : Type 0} (mutate : Mutation b lib A) (m : Moving c lib R mutate) where
    -- The version that was read stays in the history while the mutation runs.
    found_again :
        (w v v1 v2 : b.World) (r : ℕ) (s : State) {a : A × State}
        → b.read_state w ≡ (ok (r, s), v)
        → mutate s v ≡ (ok a, v1)
        → v1 ≡ v2
        → At r s (c.versions v2)
    found_again w v v1 v2 r s got run same =
        let (older, top) = read_top c w v r s got in
        let first : At r s (c.versions v) = rw top (inl (refl, refl)) in
        rw (← same) (At-Later r s first (rw run at ((m.keeps s).later v)))

    cycle-Keeping :
        (again : Action b.World A) → Keeping c R again → Keeping c R (cycle b lib mutate again)
    unfolding cycle
    cycle-Keeping again k = Keeping-of c R (cycle b lib mutate again) λ w.
        Kept-bind c R b.read_state _ w (Kept-of c R b.read_state (Keeping-read_state p) w)
          λ (r, s) v got.
            Kept-bind c R (mutate s) _ v (Kept-of c R (mutate s) (m.keeps s) v) λ (a, next) v1 run.
              Kept-bind c R (lift (check_size b lib next)) _ v1
                (Kept-of c R _ (Keeping-lift (check_size b lib next)) v1)
                λ u v2 checked.
                  write-Kept r a s next again v2 k
                    (found_again w v v1 v2 r s got run (lift-ok _ v1 checked).1)
                    (m.moves s v a next (ap (λ q. q.0) run))

    pub update-Keeping : (n : ℕ) → Keeping c R (update b lib n mutate)
    unfolding update
    update-Keeping zero = Keeping-raise _
    update-Keeping (suc n) = cycle-Keeping (update b lib n mutate) (update-Keeping n)
