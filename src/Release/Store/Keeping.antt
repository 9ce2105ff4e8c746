-- ===== src/Release/Store/Keeping.antt =====
-- What `Store.update` writes, beside other writers.
use ml_template.Prelude.Actions.{Action, lift, lift-ok}
use ml_template.Release.Types.{State}
use ml_template.Backend.{Backend, IsCas}
use ml_template.Backend.Keeping.{
  Keeping, Keeping-return, Keeping-raise, Kept, Kept-trans, Kept-of, Keeping-of, Kept-bind,
  Keeping-read_state, Keeping-lift,
}
use ml_template.Release.Store.{Mutation, settle, update, attempt, round}
use ml_template.Backend.Chains.{Peers, At, At-Unique, At-Later}
use ml_template.Release.Host.{Host}
use ml_template.Prelude.{
  ◌≡◌, ok, Result, err, value_error, conflict, ℕ, busy, subst, suc, zero, ap, inl, refl,
}
use ml_template.Release.State.{validate}
use ml_template.Backend.Writes.{read_top}

module _ {b : Backend State} (c : IsCas b) (R : State → State → Type 0) where
  -- A mutation that looks at the clock at most, and whose result stands in the relation.
  pub record Moving {A : Type 0} (mutate : Mutation b A) : Type 0 where
    pub keeps : (s : State) → Keeping c R (mutate s)
    pub moves :
        (s : State) (w : b.World) (a : A) (next : State) → (mutate s w).0 ≡ ok (a, next) → R s next

module _ {b : Backend State} {c : IsCas b} {R : State → State → Type 0} (p : Peers c R)
    (h : Host) where
  settle-Keeping :
      {A : Type 0} (a : A) (retry : Action b.World A) (r : Result (Unit {0}))
      → Keeping c R retry
      → Keeping c R (settle b a retry r)
  unfolding settle
  settle-Keeping a retry (ok u) k = Keeping-return a
  settle-Keeping a retry (err conflict) k = k
  settle-Keeping a retry (err (value_error m)) k = Keeping-raise (value_error m)
  settle-Keeping a retry (err e) k = Keeping-raise e

  -- A write on a revision that was read keeps to the relation if the new state does.
  write-Kept :
      (r : ℕ) (s next : State) (w : b.World)
      → At r s (c.versions w)
      → R s next
      → Kept c R w (b.write_state r next w).1
  write-Kept r s next w at rel =
      let v = (b.write_state r next w).1 in
      (
        c.write_later r next w,
        λ chain. p.write_Chain r next w chain (λ x there.
            subst (λ y. R y next)
              (At-Unique r s x (c.versions v) (c.unique v)
                (At-Later r s at (c.write_later r next w)) there)
              rel),
      )

  attempt-Kept :
      {A : Type 0} (r : ℕ) (a : A) (s next : State) (retry : Action b.World A) (w : b.World)
      → Keeping c R retry
      → At r s (c.versions w)
      → R s next
      → Kept c R w (attempt b r a next retry w).1
  unfolding attempt
  attempt-Kept r a s next retry w k at rel =
      let (result, v) = b.write_state r next w in
      Kept-trans c R w v (settle b a retry result v).1 (write-Kept r s next w at rel)
        (Kept-of c R (settle b a retry result) (settle-Keeping a retry result k) v)

  module _ {A : Type 0} (mutate : Mutation b A) (m : Moving c R mutate) where
    -- The version that a round has read is in the history when it writes.
    still_there :
        (w v v1 v2 v3 : b.World) (r : ℕ) (s : State) {a : A × State}
        → b.read_state w ≡ (ok (r, s), v)
        → v ≡ v1
        → mutate s v1 ≡ (ok a, v2)
        → v2 ≡ v3
        → At r s (c.versions v3)
    still_there w v v1 v2 v3 r s got same run same' =
        let (older, top) = read_top c w v r s got in
        let first : At r s (c.versions v) = rw top (inl (refl, refl)) in
        rw (← same') (At-Later r s (rw same at first) (rw run at ((m.keeps s).later v1)))

    round-Keeping :
        (retry : Action b.World A) → Keeping c R retry → Keeping c R (round b h mutate retry)
    unfolding round
    round-Keeping retry k = Keeping-of c R (round b h mutate retry) λ w.
        Kept-bind c R b.read_state _ w (Kept-of c R b.read_state (Keeping-read_state p) w)
          λ (r, s) v got.
            Kept-bind c R (lift (validate h s)) _ v (Kept-of c R _ (Keeping-lift (validate h s)) v)
              λ u v1 checked.
                Kept-bind c R (mutate s) _ v1 (Kept-of c R (mutate s) (m.keeps s) v1)
                  λ (a, next) v2 run.
                    Kept-bind c R (lift (validate h next)) _ v2
                      (Kept-of c R _ (Keeping-lift (validate h next)) v2)
                      λ u' v3 checked'.
                        attempt-Kept r a s next retry v3 k
                          (still_there w v v1 v2 v3 r s got (lift-ok _ v checked).1 run
                            (lift-ok _ v2 checked').1)
                          (m.moves s v1 a next (ap (λ q. q.0) run))

    pub update-Keeping : (n : ℕ) → Keeping c R (update b h n mutate)
    unfolding update
    update-Keeping zero = Keeping-raise (busy "CAS retries exhausted")
    update-Keeping (suc n) = round-Keeping (update b h n mutate) (update-Keeping n)
