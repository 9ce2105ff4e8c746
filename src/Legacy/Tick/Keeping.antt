-- ===== src/Legacy/Tick/Keeping.antt =====
-- The writes that the phases of a tick share, as steps.
use ml_template.Prelude.Actions.{◌>>=◌, Action, bind-result, lift, return}
use ml_template.Backend.Keeping.{
  Keeping, Keeping-return, Keeping-bind, Keeping-read_state, Keeping-now, Keeping-if, Keeping-lift,
}
use ml_template.Backend.{Backend, IsCas, now}
use ml_template.Backend.Chains.{Peers}
use ml_template.Release.Types.{Time, Lease}
use ml_template.Release.Controller.{Lane}
use ml_template.Legacy.Types.{State, Library, Release, Active}
use ml_template.Legacy.Steps.{Step, unchanged, leased, rolling_back, nothing_newer, claimed}
use ml_template.Legacy.Store.Keeping.{update-Keeping}
use ml_template.Legacy.Store.{read, retries}
use ml_template.Legacy.Effects.{Cluster}
use ml_template.Legacy.Controller.{
  acquire, claim_lease, claim_over, guard, guarded, change, ensure, once, twice, begin_rollback,
  roll_back, roll_back_active, claim, claim_newest,
}
use ml_template.Legacy.Stages.{is_settled, is_newer, owns_lease}
use ml_template.Prelude.{
  String, ◌≡◌, ok, Bool, Bool-cases, inl, inr, ap, Result, ◌∙◌, Option, some, none, List, filter, ℕ,
  check, busy, ◌==◌, String_eq, ltb, subst, ◌∷◌, ok-injective, ◌+◌, refl, [],
}
use ml_template.Legacy.Effects.Keeping.{Quiet}

pub stepped : {s x y : State} → Step s x → x ≡ y → Step s y
stepped {s} st e = subst (λ z. Step s z) e st

module _ {b : Backend State} {c : IsCas b} (p : Peers c Step) (lib : Library)
    (cluster : Cluster b.World) (quiet : Quiet c cluster) (owner : String) (timeout : Time) where
  claim_over-keeps :
      (l : Option Lease) (s : State) → Keeping c Step (claim_over b lib cluster owner timeout l s)
  unfolding claim_over
  claim_over-keeps none s = Keeping-bind _ _ (Keeping-now p) λ t. Keeping-return _
  claim_over-keeps (some l) s =
      Keeping-if _ _ _ (Keeping-bind _ _ (Keeping-now p) λ t. Keeping-return _) (
        Keeping-bind _ _ (Keeping-now p) λ t.
          Keeping-if _ _ _ (Keeping-return _)
            (Keeping-bind _ _ (Keeping-now p) λ t'. Keeping-return _))

  claim_over-moves :
      (l : Option Lease) (s : State) (w : b.World) (a : Bool) (next : State)
      → (claim_over b lib cluster owner timeout l s w).0 ≡ ok (a, next)
      → Step s next
  unfolding claim_over now
  claim_over-moves none s w a next e = stepped (leased owner (b.clock w).0) cc
  claim_over-moves (some l) s w a next e = elim (Bool-cases (l.owner == owner)) [
    | inl ours ↦ stepped (leased owner (b.clock w).0) (let f = (rw ours at e) in cc)
    | inr other ↦ elim (Bool-cases (ltb (b.clock w).0 l.until)) [
      | inl runs ↦ stepped unchanged (let f = (rw (other, runs) at e) in cc)
      | inr over ↦
          stepped (leased owner (b.clock (b.clock w).1).0) (let f = (rw (other, over) at e) in cc)
    ]
  ]

  pub acquire-Keeping : Keeping c Step (acquire b lib cluster owner timeout)
  unfolding acquire claim_lease
  acquire-Keeping =
      update-Keeping p lib _
        (record {
          keeps = λ s. claim_over-keeps s.lease s;
          moves = λ s w a next e. claim_over-moves s.lease s w a next e;
        })
        retries

  pub guard-Keeping : Keeping c Step (guard b lib cluster owner timeout)
  unfolding guard read
  guard-Keeping =
      Keeping-bind _ _ (Keeping-bind _ _ (Keeping-read_state p) λ (r, s). Keeping-return s) λ s.
        Keeping-bind _ _ (Keeping-now p)
          λ t. Keeping-bind _ _ (Keeping-lift _) λ u. Keeping-return s

  pub ensure-Keeping :
      (lane : Lane) (d : String) (n : ℕ)
      → Keeping c Step (ensure b lib cluster owner timeout lane d n)
  unfolding ensure
  ensure-Keeping lane d n = Keeping-bind _ _ guard-Keeping λ s. quiet.ensures lane d n

  module _ (mutate : State → Action b.World State) (keeps : (s : State) → Keeping c Step (mutate s))
      (moves : (s : State) (w : b.World) (next : State)
        → (mutate s w).0 ≡ ok next
        → Step s next) where
    guarded-keeps : (s : State) → Keeping c Step (guarded b lib cluster owner timeout mutate s)
    unfolding guarded
    guarded-keeps s = Keeping-bind _ _ (Keeping-now p) λ t.
        Keeping-bind _ _ (Keeping-lift _) λ u. Keeping-bind _ _ (keeps s) λ next. Keeping-return _

    guarded-moves :
        (s : State) (w : b.World) (a : Unit {0}) (next : State)
        → (guarded b lib cluster owner timeout mutate s w).0 ≡ ok (a, next)
        → Step s next
    unfolding guarded
    guarded-moves s w a next e =
        let t = (b.clock w).0 in
        let v0 = (b.clock w).1 in
        let held = check (owns_lease owner t s.lease) (busy "Controller lease lost") in
        let rest : Unit {0} → Action b.World (Unit {0} × State) =
          λ u. mutate s >>= λ made. return (tt, made) in
        let e0 : ((lift held >>= rest) v0).0 ≡ ok (a, next) = unfold now in e in
        let (u, v, checked, e1) = bind-result (lift held) rest v0 (a, next) e0 in
        let (made, v1, ran, e2) =
          bind-result (mutate s) (λ made. return (tt, made)) v (a, next) e1 in
        moves s v next (ap (λ q. q.0) ran ∙ cc)

    -- A change writes a step if its mutation makes one.
    pub change-Keeping : Keeping c Step (change b lib cluster owner timeout mutate)
    unfolding change
    change-Keeping =
        update-Keeping p lib _ (record { keeps = guarded-keeps; moves = guarded-moves }) retries

  pub once-Keeping :
      (f : Time → State → Result State)
      → ((t : Time) (s next : State) → f t s ≡ ok next → Step s next)
      → Keeping c Step (once b lib cluster owner timeout f)
  unfolding once
  once-Keeping f moves =
      change-Keeping _ (λ s. Keeping-bind _ _ (Keeping-now p) λ t. Keeping-lift (f t s))
        (λ s w next e. moves (b.clock w).0 s next (unfold now in e))

  pub twice-Keeping :
      (f : Time → Time → State → Result State)
      → ((t u : Time) (s next : State) → f t u s ≡ ok next → Step s next)
      → Keeping c Step (twice b lib cluster owner timeout f)
  unfolding twice
  twice-Keeping f moves =
      change-Keeping _
        (λ s.
          Keeping-bind _ _ (Keeping-now p)
            λ t. Keeping-bind _ _ (Keeping-now p) λ u. Keeping-lift (f t u s))
        (λ s w next e. moves (b.clock w).0 (b.clock (b.clock w).1).0 s next (unfold now in e))

  roll_back_active-keeps :
      (reason : String) (a : Option Active) (s : State)
      → Keeping c Step (roll_back_active b lib cluster owner timeout reason a s)
  unfolding roll_back_active
  roll_back_active-keeps reason none s = Keeping-return s
  roll_back_active-keeps reason (some a) s =
      Keeping-if _ _ _ (Keeping-return s) (
        Keeping-bind _ _ (Keeping-now p)
          λ t. Keeping-bind _ _ (Keeping-now p) λ u. Keeping-return _)

  roll_back_active-moves :
      (reason : String) (a : Option Active) (s : State) (w : b.World) (next : State)
      → (roll_back_active b lib cluster owner timeout reason a s w).0 ≡ ok next
      → Step s next
  unfolding roll_back_active now
  roll_back_active-moves reason none s w next e = stepped unchanged cc
  roll_back_active-moves reason (some a) s w next e = elim (Bool-cases (is_settled a.phase)) [
    | inl settled ↦ stepped unchanged (let f = (rw settled at e) in cc)
    | inr open_yet ↦
        stepped (rolling_back reason ((b.clock w).0 + timeout) (b.clock (b.clock w).1).0 a)
          (let f = (rw open_yet at e) in cc)
  ]

  pub begin_rollback-Keeping :
      (reason : String) → Keeping c Step (begin_rollback b lib cluster owner timeout reason)
  unfolding begin_rollback roll_back
  begin_rollback-Keeping reason =
      change-Keeping _ (λ s. roll_back_active-keeps reason s.active s)
        (λ s w next e. roll_back_active-moves reason s.active s w next e)

  claim_newest-keeps :
      (s : State) (found : List Release)
      → Keeping c Step (claim_newest b lib cluster owner timeout s found)
  unfolding claim_newest
  claim_newest-keeps s [] = Keeping-return _
  claim_newest-keeps s (r ∷ rest) =
      Keeping-bind _ _ (Keeping-now p) λ t. Keeping-bind _ _ (Keeping-now p) λ u. Keeping-return _

  claim_newest-moves :
      (s : State) (found : List Release) (w : b.World) (next : State)
      → filter (λ x. is_newer s.stable x) s.pending ≡ found
      → (claim_newest b lib cluster owner timeout s found w).0 ≡ ok next
      → Step s next
  unfolding claim_newest now
  claim_newest-moves s [] w next same e = stepped nothing_newer (ok-injective e)
  claim_newest-moves s (r ∷ rest) w next same e =
      stepped (claimed r rest ((b.clock w).0 + timeout) (b.clock (b.clock w).1).0 same)
        (ok-injective e)

  pub claim-Keeping :
      Keeping c Step (change b lib cluster owner timeout (claim b lib cluster owner timeout))
  unfolding claim
  claim-Keeping =
      change-Keeping _ (λ s. claim_newest-keeps s _)
        (λ s w next e. claim_newest-moves s _ w next refl e)
