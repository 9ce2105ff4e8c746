-- ===== src/Release/Authorize/Cases.antt =====
-- What `authorize` returns.
use ml_template.Release.Authorize.{grant, decide_grant, check_renewal, authorize}
use ml_template.Prelude.{
  ◌>>◌, ◌≡◌, ok, Option, ◌+◌, some, true, ◌⊎◌, ◌≤◌, ◌≢◌, none, >>=-eq-ok, check, is_none, or_raise,
  inr, key_error, Bool-cases, ok-injective, ◌==◌, sym, inl, ap, String, leb, value_error, find, not,
  subst, ==_iff, leb→le, check-ok, String_eq, or_raise-ok, Option_eq, ◌∙◌,
}
use ml_template.Release.Types.{State, Evidence, Time, Authorization, PendingItem, Baseline}
use ml_template.Release.Host.{Host}
use ml_template.Release.Authorization.{
  ttl, claimable, validate_authorization, item_identity, has_version, snapshot, evidence_baseline,
}
use ml_template.Release.State.{audit}
use ml_template.Release.Equality.{Evidence_eq, Baseline_eq}

-- The state keeps all that a release is decided on.
abbrev pub Untouched : State → State → Type 0
Untouched s next =
    (next.route ≡ s.route)
    × (next.active ≡ s.active)
    × (next.stable ≡ s.stable)
    × (next.highest_accepted ≡ s.highest_accepted)
    × (next.lease ≡ s.lease)

module _ (h : Host) where
  -- A new approval, from now on.
  abbrev pub Fresh : Evidence → Time → State → Authorization → State → Type 0
  Fresh expected now s auth next =
      (auth ≡ record {
        evidence = expected;
        evidence_hash = h.evidence_hash expected;
        authorized_at = now;
        expires_at = now + ttl;
      })
      × Untouched s next

  grant-Fresh :
      (expected : Evidence) (now : Time) (s : State) (item : PendingItem) {auth : Authorization}
      {next : State}
      → grant h expected now s item ≡ ok (auth, next)
      → Fresh expected now s auth next
  unfolding grant audit
  grant-Fresh expected now s item {auth} {next} e =
      let (u, valid, e1) =
        >>=-eq-ok
          (validate_authorization h
            (some (record {
              evidence = expected;
              evidence_hash = h.evidence_hash expected;
              authorized_at = now;
              expires_at = now + ttl;
            }))
            (item_identity item))
          _ e in
      let (pair, paired, e2) = >>=-eq-ok (or_raise item.pair key_error) _ e1 in
      let made = ok-injective e2 in
      (
        sym (ap (λ p. p.0) made),
        (
          ap (λ p. p.1.route) (sym made),
          ap (λ p. p.1.active) (sym made),
          ap (λ p. p.1.stable) (sym made),
          ap (λ p. p.1.highest_accepted) (sym made),
          ap (λ p. p.1.lease) (sym made),
        ),
      )

  -- What a renewal of an approval has met.
  abbrev pub Renews : Evidence → Time → Authorization → Type 0
  Renews expected now old =
      (old.expires_at ≤ now)
      × (old.expires_at ≤ expected.created_at)
      × (expected.supersedes ≡ some old.evidence_hash)
      × (expected.source.run_id ≢ old.evidence.source.run_id)

  not-==→≢ : (x y : String) → not (x == y) ≡ true → x ≢ y
  not-==→≢ x y e q = let same : (x == y) ≡ true = (==_iff x y).1 q in cc

  some-injective : {a b : Authorization} → some a ≡ some b → a ≡ b
  some-injective q = cc

  check_renewal-Renews :
      (expected : Evidence) (now : Time) (actual : Baseline) (old : Authorization) {u : Unit {0}}
      → check_renewal h expected now actual old ≡ ok u
      → Renews expected now old
  unfolding check_renewal
  check_renewal-Renews expected now actual old e =
      let (u1, over, e1) = >>=-eq-ok (check (leb old.expires_at now) _) _ e in
      let (u2, named, e2) =
        >>=-eq-ok (check (expected.supersedes == some old.evidence_hash) _) _ e1 in
      let (u3, fresh, e3) =
        >>=-eq-ok (check (not (expected.source.run_id == old.evidence.source.run_id)) _) _ e2 in
      let (u4, later, e4) = >>=-eq-ok (check (leb old.expires_at expected.created_at) _) _ e3 in
      (
        leb→le _ _ (check-ok _ _ over),
        leb→le _ _ (check-ok _ _ later),
        (==_iff expected.supersedes (some old.evidence_hash)).0 (check-ok _ _ named),
        not-==→≢ _ _ (check-ok _ _ fresh),
      )

  none-not-some : {a : Authorization} → ◌≡◌ {A = Option Authorization} none (some a) → ⊥
  none-not-some q = cc

  -- The two ways in which an approval is returned.
  abbrev pub Decided :
      Evidence → Time → State → PendingItem → Option Authorization → Authorization → State → Type 0
  Decided expected now s item previous auth next =
      ((previous ≡ some auth)
        × (auth.evidence ≡ expected)
        × (claimable h s item now ≡ true)
        × (next ≡ s))
      ⊎ Fresh expected now s auth next
        × ((old : Authorization) → previous ≡ some old → Renews expected now old)

  decide_grant-Decided :
      (expected : Evidence) (now : Time) (s : State) (actual : Baseline) (item : PendingItem)
      (previous : Option Authorization) {auth : Authorization} {next : State}
      → decide_grant h expected now s actual item previous ≡ ok (auth, next)
      → Decided expected now s item previous auth next
  unfolding decide_grant check_renewal
  decide_grant-Decided expected now s actual item none e =
      let (u, first, e1) = >>=-eq-ok (check (is_none expected.supersedes) _) _ e in
      inr (grant-Fresh expected now s item e1, λ old q. absurd (none-not-some q))
  decide_grant-Decided expected now s actual item (some previous) {auth} {next} e =
      elim (Bool-cases (previous.evidence == expected)) [
        | inl same ↦
            let e' : (check (claimable h s item now) (value_error "authorization_expired_or_stale")
                  >> ok (previous, s))
                ≡ ok (auth, next) =
              rw (decide_grant, same) at e in
            let (u, fits, e1) = >>=-eq-ok (check (claimable h s item now) _) _ e' in
            let made : (previous, s) ≡ (auth, next) = ok-injective e1 in
            let kept : previous ≡ auth = ap (λ p. p.0) made in
            inl (
              ap some kept,
              subst (λ (a : Authorization). a.evidence ≡ expected) kept
                  ((==_iff previous.evidence expected).0 same),
              check-ok _ _ fits,
              sym (ap (λ p. p.1) made),
            )
        | inr other ↦
            let e' : (check_renewal h expected now actual previous >> grant h expected now s item)
                ≡ ok (auth, next) =
              rw (decide_grant, other) at e in
            let (u, renewed, e1) = >>=-eq-ok (check_renewal h expected now actual previous) _ e' in
            inr (
              grant-Fresh expected now s item e1,
              λ old q.
                  subst (λ a. Renews expected now a) (some-injective q)
                    (check_renewal-Renews expected now actual previous renewed),
            )
      ]

  -- An approval that `authorize` returns is for the evidence that was asked for, on a state that the
  -- evidence describes. Either it is the item's own approval, which can still be claimed, and the
  -- state is left as it is; or it begins now and lasts 15 minutes, any earlier approval of the item
  -- has run out before the new evidence was made by another run, and the route, the release, the
  -- stable pair, the highest accepted version and the lease stay.
  pub authorize-Decided :
      (expected : Evidence) (now : Time) (s : State) {auth : Authorization} {next : State}
      → authorize h expected now s ≡ ok (auth, next)
      → (item : PendingItem) × (find (has_version expected.candidate.pair.model_version) s.pending
          ≡ some item)
        × (snapshot h s expected.candidate.pair.model_version ≡ ok (evidence_baseline h expected))
        × Decided expected now s item item.authorization auth next
  unfolding authorize
  authorize-Decided expected now s e =
      let (actual, shot, e1) = >>=-eq-ok (snapshot h s expected.candidate.pair.model_version) _ e in
      let (u, same, e2) = >>=-eq-ok (check (actual == evidence_baseline h expected) _) _ e1 in
      let (item, found, e3) =
        >>=-eq-ok (or_raise (find (has_version expected.candidate.pair.model_version) s.pending) _)
          _ e2 in
      (
        item,
        or_raise-ok _ _ found,
        shot ∙ ap ok ((==_iff actual (evidence_baseline h expected)).0 (check-ok _ _ same)),
        decide_grant-Decided expected now s actual item item.authorization e3,
      )
