-- ===== src/Release/Tick/Keeping.antt =====
-- The writes that the phases of a tick share, as moves.
use ml_template.Prelude.Actions.{Action, bind-result}
use ml_template.Backend.Keeping.{
  Keeping, keeping_rules, Keeping-return, Keeping-bind, Keeping-read_state, Keeping-now, Keeping-if,
  Keeping-lift,
}
use ml_template.Release.Types.{Time, State, ServingPair}
use ml_template.Release.Moves.{Move, stays, leases}
use ml_template.Release.Store.Keeping.{Moving, update-Keeping}
use ml_template.Backend.{Backend, IsCas, now}
use ml_template.Release.Controller.{
  Effects, Lane, claim_lease, acquire, guard, change, guarded, ensure, clocked, clocked_twice,
}
use ml_template.Backend.Chains.{Peers}
use ml_template.Release.Host.{Host}
use ml_template.Samples.{Policy}
use ml_template.Prelude.{String, ◌≡◌, ok, Bool, Bool-cases, inl, inr, ap, Result, ◌∙◌}
use ml_template.Release.Store.{read, retries}
use ml_template.Release.Stages.{is_leased}
use ml_template.Release.Tick.{once, twice, commit_change}

-- Effects that write no release state.
pub record Quiet {b : Backend State} (c : IsCas b) (R : State → State → Type 0)
    (effects : Effects b.World) : Type 0 where
  pub ensures :
      (lane : Lane) (p : ServingPair) (fp : String) → Keeping c R (effects.ensure lane p fp)
  pub readies :
      (lane : Lane) (p : ServingPair) (fp : String) → Keeping c R (effects.is_ready lane p fp)
  pub routes : Keeping c R effects.router
  pub measures : Keeping c R effects.metrics

module _ {b : Backend State} {c : IsCas b} {R : State → State → Type 0} (p : Peers c R) (h : Host)
    (effects : Effects b.World) (quiet : Quiet c R effects) (policy : Policy) (owner : String)
    (allowed : (s s' : State) → Move policy.timeout s s' → R s s') where
  pub read-Keeping : Keeping c R (read b h)
  unfolding read
  read-Keeping = Keeping-bind _ _ (Keeping-read_state p) λ (r, s). search (keeping_rules)

  claim_lease-moves :
      (s : State) (w : b.World) (a : Bool) (next : State)
      → (claim_lease b h effects policy owner s w).0 ≡ ok (a, next)
      → R s next
  unfolding claim_lease now
  claim_lease-moves s w a next e = elim (Bool-cases (is_leased owner (b.clock w).0 s.lease)) [
    | inl other ↦ allowed s next (stays (let f = (rw other at e) in cc))
    | inr ours ↦
        allowed s next (leases owner (b.clock (b.clock w).1).0 (let f = (rw ours at e) in cc))
  ]

  claim_lease-keeps : (s : State) → Keeping c R (claim_lease b h effects policy owner s)
  unfolding claim_lease
  claim_lease-keeps s = Keeping-bind _ _ (Keeping-now p) λ t.
      Keeping-if _ _ _ (Keeping-return _) (Keeping-bind _ _ (Keeping-now p) λ t'. Keeping-return _)

  claim_lease-Moving : Moving c R (claim_lease b h effects policy owner)
  claim_lease-Moving = record { keeps = claim_lease-keeps; moves = claim_lease-moves }

  pub acquire-Keeping : Keeping c R (acquire b h effects policy owner)
  unfolding acquire
  acquire-Keeping = update-Keeping p h _ claim_lease-Moving retries

  pub guard-Keeping : (s : State) → Keeping c R (guard b h effects policy owner s)
  unfolding guard
  guard-Keeping s = search (keeping_rules, Keeping-now p)

  module _ (mutate : State → Action b.World State) (keeps : (s : State) → Keeping c R (mutate s))
      (moves : (s : State) (w : b.World) (next : State) → (mutate s w).0 ≡ ok next → R s next) where
    guarded-keeps : (s : State) → Keeping c R (guarded b h effects policy owner mutate s)
    unfolding guarded
    guarded-keeps s =
        Keeping-bind _ _ (guard-Keeping s) λ u. Keeping-bind _ _ (keeps s) λ next. Keeping-return _

    guarded-moves :
        (s : State) (w : b.World) (a : Unit {0}) (next : State)
        → (guarded b h effects policy owner mutate s w).0 ≡ ok (a, next)
        → R s next
    unfolding guarded
    guarded-moves s w a next e =
        let (u, v, checked, e1) = bind-result (guard b h effects policy owner s) _ w _ e in
        let (made, v1, ran, e2) = bind-result (mutate s) _ v _ e1 in
        moves s v next (ap (λ q. q.0) ran ∙ cc)

    -- A guarded change keeps to the relation if what it makes of a snapshot does.
    pub change-Keeping : Keeping c R (change b h effects policy owner mutate)
    unfolding change
    change-Keeping =
        update-Keeping p h _ (record { keeps = guarded-keeps; moves = guarded-moves }) retries

  pub ensure-Keeping :
      (lane : Lane) (q : ServingPair) (fp : String)
      → Keeping c R (ensure b h effects policy owner lane q fp)
  unfolding ensure
  ensure-Keeping lane q fp =
      Keeping-bind _ _ read-Keeping
        λ s. Keeping-bind _ _ (guard-Keeping s) λ u. quiet.ensures lane q fp

  -- A mutation that looks at the clock once, or twice.
  pub once-Keeping :
      (f : Time → State → Result State)
      → ((t : Time) (s next : State) → f t s ≡ ok next → R s next)
      → Keeping c R (once b h effects policy owner f)
  unfolding once commit_change clocked
  once-Keeping f moves =
      change-Keeping _ (λ s. Keeping-bind _ _ (Keeping-now p) λ t. Keeping-lift (f t s))
        (λ s w next e. moves (b.clock w).0 s next (unfold now in e))

  pub twice-Keeping :
      (f : Time → Time → State → Result State)
      → ((t u : Time) (s next : State) → f t u s ≡ ok next → R s next)
      → Keeping c R (twice b h effects policy owner f)
  unfolding twice commit_change clocked_twice
  twice-Keeping f moves =
      change-Keeping _
        (λ s.
          Keeping-bind _ _ (Keeping-now p)
            λ t. Keeping-bind _ _ (Keeping-now p) λ u. Keeping-lift (f t u s))
        (λ s w next e. moves (b.clock w).0 (b.clock (b.clock w).1).0 s next (unfold now in e))
