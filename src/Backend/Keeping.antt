-- ===== src/Backend/Keeping.antt =====
-- A call that loses no version, and after which every step of the history still stands in the
-- relation: one rule for each way to build a call.
use ml_template.Backend.{Backend, IsCas, now}
use ml_template.Backend.History.{Later, Later-refl, Later-trans}
use ml_template.Backend.Chains.{Peers, Chain}
use ml_template.Prelude.Actions.{Action, return, raise, lift, catch, when, ◌>>=◌, handled}
use ml_template.Prelude.{Error, Result, Bool, if◌then◌else◌, ◌≡◌, ok, true, err, false, refl}

module _ {S : Type 0} {b : Backend S} (c : IsCas b) (R : S → S → Type 0) where
  pub record Keeping {A : Type 0} (m : Action b.World A) : Type 0 where
    pub later : (w : b.World) → Later (c.versions w) (c.versions (m w).1)
    pub chained : (w : b.World) → Chain R (c.versions w) → Chain R (c.versions (m w).1)

module _ {S : Type 0} {b : Backend S} {c : IsCas b} {R : S → S → Type 0} where
  pub Keeping-return : {A : Type 0} (a : A) → Keeping c R (return a)
  Keeping-return a = record { later = λ w. Later-refl (c.versions w); chained = λ w k. k }

  pub Keeping-raise : {A : Type 0} (e : Error) → Keeping c R (raise {A = A} e)
  Keeping-raise e = record { later = λ w. Later-refl (c.versions w); chained = λ w k. k }

  pub Keeping-lift : {A : Type 0} (r : Result A) → Keeping c R (lift r)
  Keeping-lift r = record { later = λ w. Later-refl (c.versions w); chained = λ w k. k }

  pub Keeping-if :
      {A : Type 0} (t : Bool) (m n : Action b.World A)
      → Keeping c R m
      → Keeping c R n
      → Keeping c R (if t then m else n)
  Keeping-if true m n k l = k
  Keeping-if false m n k l = l

  pub Keeping-when :
      (t : Bool) (m : Action b.World (Unit {0})) → Keeping c R m → Keeping c R (when t m)
  Keeping-when true m k = k
  Keeping-when false m k = Keeping-return tt

  module _ {A B : Type 0} where
    pub Keeping-lift-bind :
        (r : Result A) (f : A → Action b.World B)
        → ((a : A) → r ≡ ok a → Keeping c R (f a))
        → Keeping c R (lift r >>= f)
    Keeping-lift-bind (ok a) f k = k a refl
    Keeping-lift-bind (err e) f k = Keeping-raise e

    pub Keeping-bind :
        (m : Action b.World A) (f : A → Action b.World B)
        → Keeping c R m
        → ((a : A) → Keeping c R (f a))
        → Keeping c R (m >>= f)
    Keeping-bind m f k l = record {
      later = λ w.
          let (r, v) = m w in
          Later-trans (k.later w) ((Keeping-lift-bind r f (λ a _. l a)).later v);
      chained =
          λ w h. let (r, v) = m w in (Keeping-lift-bind r f (λ a _. l a)).chained v (k.chained w h);
    }

  Keeping-handled :
      {A : Type 0} (r : Result A) (handler : Error → Action b.World A)
      → ((e : Error) → Keeping c R (handler e))
      → Keeping c R (handled r handler)
  Keeping-handled (ok a) handler l = Keeping-return a
  Keeping-handled (err e) handler l = l e

  pub Keeping-catch :
      {A : Type 0} (m : Action b.World A) (handler : Error → Action b.World A)
      → Keeping c R m
      → ((e : Error) → Keeping c R (handler e))
      → Keeping c R (catch m handler)
  Keeping-catch m handler k l = record {
    later =
        λ w. let (r, v) = m w in Later-trans (k.later w) ((Keeping-handled r handler l).later v);
    chained = λ w h. let (r, v) = m w in (Keeping-handled r handler l).chained v (k.chained w h);
  }

  module _ (p : Peers c R) where
    pub Keeping-now : Keeping c R (now b)
    unfolding now
    Keeping-now = record { later = c.clock_later; chained = p.clock_Chain }

    pub Keeping-read_state : Keeping c R (b.read_state)
    Keeping-read_state = record { later = c.read_later; chained = p.read_Chain }

pub ruleset keeping_rules = (
  Keeping-return, Keeping-raise, Keeping-lift, Keeping-if, Keeping-when, Keeping-bind,
  Keeping-catch,
)

-- The same of one run, for calls that use what an earlier one returned.
module _ {S : Type 0} {b : Backend S} (c : IsCas b) (R : S → S → Type 0) where
  abbrev pub Kept : b.World → b.World → Type 0
  Kept w w' =
      Later (c.versions w) (c.versions w') × (Chain R (c.versions w) → Chain R (c.versions w'))

  pub Kept-trans : (u v w : b.World) → Kept u v → Kept v w → Kept u w
  Kept-trans u v w k l = (Later-trans k.0 l.0, λ h. l.1 (k.1 h))

  pub Kept-of : {A : Type 0} (m : Action b.World A) → Keeping c R m → (w : b.World) → Kept w (m w).1
  Kept-of m k w = (k.later w, k.chained w)

  pub Keeping-of :
      {A : Type 0} (m : Action b.World A) → ((w : b.World) → Kept w (m w).1) → Keeping c R m
  Keeping-of m k = record { later = λ w. (k w).0; chained = λ w. (k w).1 }

  module _ {A B : Type 0} (m : Action b.World A) (f : A → Action b.World B) where
    bind_after :
        (w : b.World) (r : Result A) (v : b.World)
        → m w ≡ (r, v)
        → Kept w v
        → ((a : A) → m w ≡ (ok a, v) → Kept v (f a v).1)
        → Kept w ((lift r >>= f) v).1
    bind_after w (ok a) v e k l = Kept-trans w v (f a v).1 k (l a e)
    bind_after w (err x) v e k l = k

    pub Kept-bind :
        (w : b.World)
        → Kept w (m w).1
        → ((a : A) (v : b.World) → m w ≡ (ok a, v) → Kept v (f a v).1)
        → Kept w ((m >>= f) w).1
    Kept-bind w k l = bind_after w (m w).0 (m w).1 refl k (λ a e. l a (m w).1 e)
