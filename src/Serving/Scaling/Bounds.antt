-- ===== src/Serving/Scaling/Bounds.antt =====
-- The replicas and targets that a policy may ask for.
use ml_template.Prelude.{
  ℕ, Option, ok, ◌≡◌, ◌≤◌, some, none, Bool-cases, ◌+◌, ◌⊎◌, ◌==◌, inl, inr, arith, ℕ_eq, refl, sym,
  leb, >>=-eq-ok, ok-injective, ==_iff, check, ◌&&◌, ◌∙◌, true, check-ok, ap, leb→le,
}
use ml_template.Release.Controller.{Lane, stable, canary}
use ml_template.Serving.Scaling.{predictor_policy, Environment, Scaling, read_setting, scaling_of}

-- One or two replicas, and a CPU target from 50 to 90 percent exactly for two.
pub record IsReviewed (p : Scaling) : Type 0 where
  pub least : p.min_replicas ≡ 1
  pub shape :
      ((p.max_replicas ≡ 1) × (p.target ≡ none))
      ⊎ ((p.max_replicas ≡ 2) × (t : ℕ) × (p.target ≡ some t) × (50 ≤ t) × (t ≤ 90))

scaling_of-IsReviewed :
    (digit_value : ℕ → Option ℕ) (n t : ℕ)
    → 1 ≤ n
    → n ≤ 2
    → 50 ≤ t
    → t ≤ 90
    → IsReviewed (scaling_of digit_value n t)
unfolding scaling_of
scaling_of-IsReviewed digit_value n t low high low' high' = elim (Bool-cases (n == 1)) [
  | inl one ↦ rw one (record { least = refl; shape = inl (refl, refl) })
  | inr more ↦
      let two : n ≡ 2 = ground arith in
      rw more (record { least = refl; shape = inr (two, t, refl, low', high') })
]

scaling_of-max :
    (digit_value : ℕ → Option ℕ) (n t : ℕ) → (scaling_of digit_value n t).max_replicas ≡ n
unfolding scaling_of
scaling_of-max digit_value n t = elim (Bool-cases (n == 1)) [
  | inl one ↦ rw one (sym ((==_iff n 1).0 one))
  | inr more ↦ rw more refl
]

-- What an accepted environment sets.
record Settings (digit_value : ℕ → Option ℕ) (env : Environment) (lane : Lane) (p : Scaling)
    : Type 0 where
  most_stable : ℕ
  most_canary : ℕ
  cpu : ℕ
  stable_set : read_setting digit_value env "V2_STABLE_MAX_REPLICAS" "1" ≡ ok most_stable
  canary_set : read_setting digit_value env "V2_CANARY_MAX_REPLICAS" "1" ≡ ok most_canary
  ceilings :
      (leb 1 most_stable && leb most_stable 2 && (leb 1 most_canary && leb most_canary 2)) ≡ true
  together : leb (most_stable + most_canary) 3 ≡ true
  in_range : (leb 50 cpu && leb cpu 90) ≡ true
  scaled :
      scaling_of digit_value (elim lane [ stable ↦ most_stable | canary ↦ most_canary ]) cpu ≡ p

settings :
    (digit_value : ℕ → Option ℕ) (env : Environment) (lane : Lane) {p : Scaling}
    → predictor_policy digit_value lane env ≡ ok p
    → Settings digit_value env lane p
unfolding predictor_policy
settings digit_value env lane e =
    let (ms, e1, r1) = >>=-eq-ok (read_setting digit_value env "V2_STABLE_MAX_REPLICAS" "1") _ e in
    let (mc, e2, r2) = >>=-eq-ok (read_setting digit_value env "V2_CANARY_MAX_REPLICAS" "1") _ r1 in
    let (t, e3, r3) = >>=-eq-ok (read_setting digit_value env "V2_HPA_CPU_TARGET" "80") _ r2 in
    let (u4, e4, r4) = >>=-eq-ok (check (leb 1 ms && leb ms 2 && (leb 1 mc && leb mc 2)) _) _ r3 in
    let (u5, e5, r5) = >>=-eq-ok (check (leb (ms + mc) 3) _) _ r4 in
    let (u6, e6, r6) = >>=-eq-ok (check (leb 50 t && leb t 90) _) _ r5 in
    record {
      most_stable = ms;
      most_canary = mc;
      cpu = t;
      stable_set = e1;
      canary_set = e2;
      ceilings = check-ok _ _ e4;
      together = check-ok _ _ e5;
      in_range = check-ok _ _ e6;
      scaled = ok-injective r6;
    }

stable-IsReviewed :
    (digit_value : ℕ → Option ℕ) (env : Environment) {p : Scaling}
    (s : Settings digit_value env stable p)
    → IsReviewed p
stable-IsReviewed digit_value env s =
    let ceilings = s.ceilings in
    let in_range = s.in_range in
    rw (← s.scaled) (
      scaling_of-IsReviewed digit_value s.most_stable s.cpu (ground arith) (ground arith)
        (ground arith) (ground arith))

canary-IsReviewed :
    (digit_value : ℕ → Option ℕ) (env : Environment) {p : Scaling}
    (s : Settings digit_value env canary p)
    → IsReviewed p
canary-IsReviewed digit_value env s =
    let ceilings = s.ceilings in
    let in_range = s.in_range in
    rw (← s.scaled) (
      scaling_of-IsReviewed digit_value s.most_canary s.cpu (ground arith) (ground arith)
        (ground arith) (ground arith))

-- The lanes of one environment are within the policy, and together have at most three replicas.
pub predictor_policy-IsReviewed :
    (digit_value : ℕ → Option ℕ) (env : Environment) {p q : Scaling}
    → predictor_policy digit_value stable env ≡ ok p
    → predictor_policy digit_value canary env ≡ ok q
    → IsReviewed p × IsReviewed q × (p.max_replicas + q.max_replicas ≤ 3)
predictor_policy-IsReviewed digit_value env {p} {q} e f =
    let s = settings digit_value env stable e in
    let c = settings digit_value env canary f in
    let same : c.most_canary ≡ s.most_canary = ok-injective (sym c.canary_set ∙ s.canary_set) in
    let ours : p.max_replicas ≡ s.most_stable =
      ap (λ x. x.max_replicas) (sym s.scaled) ∙ scaling_of-max digit_value s.most_stable s.cpu in
    let theirs : q.max_replicas ≡ c.most_canary =
      ap (λ x. x.max_replicas) (sym c.scaled) ∙ scaling_of-max digit_value c.most_canary c.cpu in
    (
      stable-IsReviewed digit_value env s,
      canary-IsReviewed digit_value env c,
      omega (arith, leb→le (s.most_stable + s.most_canary) 3 s.together, same, ours, theirs),
    )
