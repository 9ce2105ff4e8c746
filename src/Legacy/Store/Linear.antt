-- ===== src/Legacy/Store/Linear.antt =====
-- What an update of the first control plane's store returns, beside the versions of the store.
use ml_template.Prelude.Actions.{Action, bind-ok, lift-ok, lift}
use ml_template.Legacy.Types.{State, Library}
use ml_template.Legacy.Store.{update, Mutation, finish, write, cycle, check_size}
use ml_template.Backend.{Backend, IsCas}
use ml_template.Backend.History.{Later, Later-trans}
use ml_template.Prelude.{
  ℕ, ◌≡◌, ok, Result, ◌⊎◌, inl, err, inr, refl, conflict, ap, subst₂, suc, zero, [],
}
use ml_template.Backend.Writes.{write-OnTop, read_since, OnTop}

module _ {b : Backend State} (c : IsCas b) (lib : Library) where
  open b use {World}
  open c use {versions}

  -- A mutation reads the clock at most: no version is lost while it runs.
  abbrev pub IsReading : {A : Type 0} → Mutation b lib A → Type 0
  IsReading mutate = (s : State) (w : World) → Later (versions w) (versions (mutate s w).1)

  -- `a` is what the mutation returned on the version below the one that it wrote, a version that was
  -- the newest at some time after `w`; the written state is within the size.
  pub record Committed {A : Type 0} (mutate : Mutation b lib A) (a : A) (w w' : World)
      : Type 0 where
    pub before : State
    pub next : State
    pub start : World
    pub during : World
    pub revision : ℕ
    pub later : Later (versions w) (versions start)
    pub mutated : (mutate before during).0 ≡ ok (a, next)
    pub small : check_size b lib next ≡ ok tt
    pub on_top : OnTop c revision before next start w'

  finish_cases :
      {A : Type 0} (a : A) (again : Action World A) (r : Result (Unit {0})) (w : World) {x : A}
      {w' : World}
      → finish b lib a again r w ≡ (ok x, w')
      → ((r ≡ ok tt) × (a ≡ x) × (w ≡ w')) ⊎ (again w ≡ (ok x, w'))
  unfolding finish
  finish_cases a again (ok u) w e = inl (refl, cc, cc)
  finish_cases a again (err conflict) w e = inr e
  finish_cases a again (err _) w e = cc

  module _ {A : Type 0} (mutate : Mutation b lib A) (reads : IsReading mutate) where
    -- A round commits, or hands over to the rounds that follow.
    abbrev Outcome : Action World A → World → A → World → Type 0
    Outcome again w a w' =
        Committed mutate a w w'
        ⊎ ((v : World) × Later (versions w) (versions v) × (again v ≡ (ok a, w')))

    write_cases :
        (again : Action World A) (w w1 w2 : World) (r : ℕ) (s next : State) (x : A) {a : A}
        {w' : World}
        → b.read_state w ≡ (ok (r, s), w1)
        → mutate s w1 ≡ (ok (x, next), w2)
        → check_size b lib next ≡ ok tt
        → write b lib r x next again w2 ≡ (ok a, w')
        → Outcome again w a w'
    unfolding write
    write_cases again w w1 w2 r s next x {a} {w'} got run small e =
        let kept : Later (versions w1) (versions w2) = rw run at (reads s w1) in
        elim (finish_cases x again (b.write_state r next w2).0 (b.write_state r next w2).1 e) [
          | inl (wrote, same, there) ↦ inl (
              subst₂ (λ y v. Committed mutate y w v) same there
                (record {
                  before = s;
                  next = next;
                  start = w;
                  during = w1;
                  revision = r;
                  later = ([], refl);
                  mutated = ap (λ p. p.0) run;
                  small = small;
                  on_top = write-OnTop c w w1 w2 r s next got kept wrote;
                }))
          | inr more ↦ inr (
            (b.write_state r next w2).1,
            Later-trans (read_since c w w1 r s got) (Later-trans kept (c.write_later r next w2)),
            more,
          )
        ]

    cycle_cases :
        (again : Action World A) (w : World) {a : A} {w' : World}
        → cycle b lib mutate again w ≡ (ok a, w')
        → Outcome again w a w'
    unfolding cycle
    cycle_cases again w e =
        let ((r, s), w1, got, e1) = bind-ok b.read_state _ w e in
        let ((x, next), w2, run, e2) = bind-ok (mutate s) _ w1 e1 in
        let (u, v, checked, e3) = bind-ok (lift (check_size b lib next)) _ w2 e2 in
        let (small, same) = lift-ok (check_size b lib next) w2 checked in
        write_cases again w w1 w2 r s next x got run small (rw (← same) at e3)

    postponed-Committed :
        {a : A} {w v w' : World}
        → Later (versions w) (versions v)
        → Committed mutate a v w'
        → Committed mutate a w w'
    postponed-Committed since k = record {
      before = k.before;
      next = k.next;
      start = k.start;
      during = k.during;
      revision = k.revision;
      later = Later-trans since k.later;
      mutated = k.mutated;
      small = k.small;
      on_top = k.on_top;
    }

    pub updated-Committed :
        (n : ℕ) (w : World) {a : A} {w' : World}
        → update b lib n mutate w ≡ (ok a, w')
        → Committed mutate a w w'
    unfolding update
    updated-Committed zero w e = cc
    updated-Committed (suc n) w e = elim (cycle_cases (update b lib n mutate) w e) [
      | inl done ↦ done
      | inr (v, since, more) ↦ postponed-Committed since (updated-Committed n v more)
    ]
