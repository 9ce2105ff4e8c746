-- ===== src/Release/Store/Linear.antt =====
-- What `Store.update` returns, beside the versions of the store.
use ml_template.Prelude.Actions.{Action, bind-ok, lift-ok, lift}
use ml_template.Release.Types.{State}
use ml_template.Release.Store.{update, Mutation, settle, attempt, round}
use ml_template.Backend.{Backend, IsCas}
use ml_template.Release.Host.{Host}
use ml_template.Backend.History.{Later, Versions, Later-trans}
use ml_template.Prelude.{
  ℕ, ◌≡◌, ◌++◌, ◌∷◌, ok, Result, ◌⊎◌, inl, err, inr, value_error, refl, conflict, ap, subst₂, ℕ,
  suc, zero,
}
use ml_template.Release.State.{validate}
use ml_template.Backend.Writes.{write-OnTop, read_since}

module _ {b : Backend State} (c : IsCas b) (h : Host) where
  open b use {World}
  open c use {versions}

  -- A mutation reads the clock at most: no version is lost while it runs.
  abbrev pub IsReading : {A : Type 0} → Mutation b A → Type 0
  IsReading mutate = (s : State) (w : World) → Later (versions w) (versions (mutate s w).1)

  -- `a` is the result of the mutation on the state that the written one lies on.
  pub record Committed {A : Type 0} (mutate : Mutation b A) (a : A) (w w' : World) : Type 0 where
    pub before : State
    pub next : State
    pub revision : ℕ
    pub revision' : ℕ
    pub newer : Versions State
    pub older : Versions State
    pub during : World
    pub stored : versions w' ≡ newer ++ (revision', next) ∷ (revision, before) ∷ older
    pub since : Later (versions w) ((revision, before) ∷ older)
    pub mutated : (mutate before during).0 ≡ ok (a, next)
    pub valid_before : validate h before ≡ ok tt
    pub valid_next : validate h next ≡ ok tt

  settle_lem :
      {A : Type 0} (a : A) (retry : Action World A) (r : Result (Unit {0})) (w : World) {x : A}
      {w' : World}
      → settle b a retry r w ≡ (ok x, w')
      → ((r ≡ ok tt) × (a ≡ x) × (w ≡ w')) ⊎ (retry w ≡ (ok x, w'))
  unfolding settle
  settle_lem a retry (ok u) w e = inl (refl, cc, cc)
  settle_lem a retry (err conflict) w e = inr e
  settle_lem a retry (err (value_error m)) w e = cc
  settle_lem a retry (err _) w e = cc

  module _ {A : Type 0} (mutate : Mutation b A) (reads : IsReading mutate) where
    -- The write of a round, after the read at `w` and the mutation.
    write-Committed :
        (w w1 w2 : World) (r : ℕ) (s next : State) (a : A)
        → b.read_state w ≡ (ok (r, s), w1)
        → validate h s ≡ ok tt
        → mutate s w1 ≡ (ok (a, next), w2)
        → validate h next ≡ ok tt
        → (b.write_state r next w2).0 ≡ ok tt
        → Committed mutate a w (b.write_state r next w2).1
    write-Committed w w1 w2 r s next a got valid run valid' wrote =
        let later : Later (versions w1) (versions w2) = rw run at (reads s w1) in
        let top = write-OnTop c w w1 w2 r s next got later wrote in
        record {
          before = s;
          next = next;
          revision = r;
          revision' = top.revision';
          newer = top.newer;
          older = top.older;
          during = w1;
          stored = top.stored;
          since = top.since;
          mutated = ap (λ p. p.0) run;
          valid_before = valid;
          valid_next = valid';
        }

    -- A round commits, or hands over to the rounds that follow.
    abbrev Outcome : Action World A → World → A → World → Type 0
    Outcome retry w a w' =
        Committed mutate a w w'
        ⊎ ((v : World) × Later (versions w) (versions v) × (retry v ≡ (ok a, w')))

    attempt_cases :
        (retry : Action World A) (w w1 w2 : World) (r : ℕ) (s next : State) (x : A) {a : A}
        {w' : World}
        → b.read_state w ≡ (ok (r, s), w1)
        → validate h s ≡ ok tt
        → mutate s w1 ≡ (ok (x, next), w2)
        → validate h next ≡ ok tt
        → attempt b r x next retry w2 ≡ (ok a, w')
        → Outcome retry w a w'
    unfolding attempt
    attempt_cases retry w w1 w2 r s next x {a} {w'} got valid run valid' e =
        elim (settle_lem x retry (b.write_state r next w2).0 (b.write_state r next w2).1 e) [
          | inl (wrote, same, there) ↦ inl (
              subst₂ (λ y v. Committed mutate y w v) same there
                (write-Committed w w1 w2 r s next x got valid run valid' wrote))
          | inr again ↦ inr (
            (b.write_state r next w2).1,
            Later-trans (read_since c w w1 r s got)
                (Later-trans (rw run at (reads s w1)) (c.write_later r next w2)),
            again,
          )
        ]

    round_cases :
        (retry : Action World A) (w : World) {a : A} {w' : World}
        → round b h mutate retry w ≡ (ok a, w')
        → Outcome retry w a w'
    unfolding round
    round_cases retry w e =
        let ((r, s), w1, got, e1) = bind-ok b.read_state _ w e in
        let (u, v1, checked, e2) = bind-ok (lift (validate h s)) _ w1 e1 in
        let (valid, same1) = lift-ok (validate h s) w1 checked in
        let ((x, next), w2, run, e3) = bind-ok (mutate s) _ v1 e2 in
        let (u', v2, checked', e4) = bind-ok (lift (validate h next)) _ w2 e3 in
        let (valid', same2) = lift-ok (validate h next) w2 checked' in
        attempt_cases retry w w1 w2 r s next x got valid (rw same1 run) valid' (rw same2 e4)

    since_Committed :
        {a : A} {w v w' : World}
        → Later (versions w) (versions v)
        → Committed mutate a v w'
        → Committed mutate a w w'
    since_Committed later k = record {
      before = k.before;
      next = k.next;
      revision = k.revision;
      revision' = k.revision';
      newer = k.newer;
      older = k.older;
      during = k.during;
      stored = k.stored;
      since = Later-trans later k.since;
      mutated = k.mutated;
      valid_before = k.valid_before;
      valid_next = k.valid_next;
    }

    -- An update that returns `a` has written, directly on a version that was read after the call
    -- began, the state that the mutation makes of it with the result `a`; both states are valid.
    pub update-Committed :
        (n : ℕ) (w : World) {a : A} {w' : World}
        → update b h n mutate w ≡ (ok a, w')
        → Committed mutate a w w'
    unfolding update
    update-Committed zero w e = cc
    update-Committed (suc n) w e = elim (round_cases (update b h n mutate) w e) [
      | inl done ↦ done
      | inr (v, later, again) ↦ since_Committed later (update-Committed n v again)
    ]
