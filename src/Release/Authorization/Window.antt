-- ===== src/Release/Authorization/Window.antt =====
-- What a claim of the controller may rely on.
use ml_template.Prelude.{
  ◌>>=◌, ◌>>◌, ◌≡◌, ok, Result, >>=-eq-ok, true, ◌≤◌, check, ◌+◌, some, ◌==◌, ◌<◌, or_raise,
  type_error, ◌&&◌, ℕ_eq, Bool, ==_iff, Bool-cases, Error, check-ok, key_error, err, inl, arith,
  false, inr, ap, or_raise-ok, if◌then◌else◌, and_iff, leb, ok-injective, ltb, String_eq, refl,
}
use ml_template.Release.Host.{Host}
use ml_template.Release.Types.{
  State, Authorization, PendingItem, Time, Candidate, ServingPair, approved_for_release, Baseline,
}
use ml_template.Release.Authorization.{
  claimable, check_authorization, claim_test, evidence_ttl, ttl, valid_supersedes, item_identity,
  ticket, snapshot, source, evidence_baseline, to_int, validate_authorization,
}
use ml_template.Release.Pairs.{serving_pair, is_digest}
use ml_template.Release.Equality.{Candidate_eq, Status_eq, Baseline_eq}

-- The approval of an item that may be released now.
pub record Approved (h : Host) (s : State) (item : PendingItem) (now : Time) : Type 0 where
  pub auth : Authorization
  pub pair : ServingPair
  pub approved : item.status ≡ approved_for_release
  pub authorized : item.authorization ≡ some auth
  pub paired : item.pair ≡ some pair
  pub started : auth.authorized_at ≤ now
  pub running : now < auth.authorized_at + ttl
  pub prompt : auth.authorized_at ≤ auth.evidence.created_at + evidence_ttl
  pub hashed : auth.evidence_hash ≡ h.evidence_hash auth.evidence
  pub identified : item_identity item ≡ ok auth.evidence.candidate
  pub unchanged : snapshot h s pair.model_version ≡ ok (evidence_baseline h auth.evidence)

module _ (h : Host) where
  record IsAuthorized (auth : Authorization) (item : Result Candidate) : Type 0 where
    identified : item ≡ ok auth.evidence.candidate
    prompt : auth.authorized_at ≤ auth.evidence.created_at + evidence_ttl
    ends : auth.expires_at ≡ auth.authorized_at + ttl
    hashed : auth.evidence_hash ≡ h.evidence_hash auth.evidence

  two_checks :
      (p q : Bool) (x y : Error) → (check p x >> check q y) ≡ ok tt → (p ≡ true) × (q ≡ true)
  two_checks true true x y e = (refl, refl)
  two_checks true false x y e = cc
  two_checks false q x y e = cc

  check_authorization_lem :
      (auth : Authorization) (item : Result Candidate)
      → check_authorization h auth item ≡ ok tt
      → IsAuthorized auth item
  unfolding check_authorization
  check_authorization_lem auth item e =
      let (u1, schema, e1) = >>=-eq-ok (check (auth.evidence.schema_version == 1) _) _ e in
      let (candidate, found, e2) = >>=-eq-ok item _ e1 in
      let (u2, same, e3) = >>=-eq-ok (check (auth.evidence.candidate == candidate) _) _ e2 in
      let (u3, sup, e4) = >>=-eq-ok (check (valid_supersedes h auth.evidence.supersedes) _) _ e3 in
      let (u4, tick, e5) = >>=-eq-ok (ticket auth.evidence.ticket_reference) _ e4 in
      let (u5, src, e6) = >>=-eq-ok (source auth.evidence.source) _ e5 in
      let (u6, pair, e7) = >>=-eq-ok (serving_pair auth.evidence.stable) _ e6 in
      let (u7, fp, e8) = >>=-eq-ok (or_raise auth.evidence.stable_fingerprint type_error) _ e7 in
      let (u8, dig, e9) =
        >>=-eq-ok (check (is_digest u7 && is_digest auth.evidence.security_hash) _) _ e8 in
      let (u9, ver, e10) = >>=-eq-ok (to_int auth.evidence.candidate.pair.model_version) _ e9 in
      let (u10, high, e11) = >>=-eq-ok (check (auth.evidence.highest_accepted == u9) _) _ e10 in
      let (timed, hashed) = two_checks _ _ _ _ e11 in
      record {
        identified = rw ((==_iff auth.evidence.candidate candidate).0 (check-ok _ _ same)) found;
        prompt = ground arith;
        ends = ground arith;
        hashed = (==_iff auth.evidence_hash (h.evidence_hash auth.evidence)).0 hashed;
      }

  caught :
      (r : Result Bool) → (elim r as (λ _. Bool) [ ok b ↦ b | err _ ↦ false ]) ≡ true → r ≡ ok true
  caught (ok b) e = ap ok e
  caught (err x) e = cc

  claimable-tests :
      (s : State) (item : PendingItem) (now : Time)
      → claimable h s item now ≡ true
      → (item.status ≡ approved_for_release) × (claim_test h s item now ≡ ok true)
  unfolding claimable
  claimable-tests s item now e = elim (Bool-cases (item.status == approved_for_release)) [
    | inl approved ↦ (
      (==_iff item.status approved_for_release).0 approved,
      caught (claim_test h s item now) (rw (claimable, approved) at e),
    )
    | inr other ↦ let bad = (rw (claimable, other) at e) in cc
  ]

  timely :
      (g : Bool) (r : Result Baseline) (expected : Baseline)
      → (if g then (r >>= λ c. ok (c == expected)) else ok false) ≡ ok true
      → (g ≡ true) × (r ≡ ok expected)
  timely true (ok c) expected e = (refl, ap ok ((==_iff c expected).0 (ok-injective e)))
  timely true (err x) expected e = cc
  timely false r expected e = cc

  -- An item that may be claimed is approved, by an approval of the last 15 minutes for this very
  -- candidate, on evidence that was at most a day old, and the state is still the one that the
  -- evidence describes.
  pub claimable_lem :
      (s : State) (item : PendingItem) (now : Time)
      → claimable h s item now ≡ true
      → Approved h s item now
  unfolding claim_test validate_authorization item_identity
  claimable_lem s item now e =
      let (approved, tested) = claimable-tests s item now e in
      let (u, valid, t1) =
        >>=-eq-ok (validate_authorization h item.authorization (item_identity item)) _ tested in
      let (auth, authorized, t2) = >>=-eq-ok (or_raise item.authorization key_error) _ t1 in
      let (pair, paired, t3) = >>=-eq-ok (or_raise item.pair key_error) _ t2 in
      let authorized' = or_raise-ok item.authorization _ authorized in
      let lem = check_authorization_lem auth (item_identity item) (rw authorized' at valid) in
      let (within, unchanged) = timely _ _ _ t3 in
      let (begun, rest) =
        (and_iff (leb auth.authorized_at now) (ltb now auth.expires_at)).0 within in
      record {
        auth = auth;
        pair = pair;
        approved = approved;
        authorized = authorized';
        paired = or_raise-ok item.pair _ paired;
        started = ground arith;
        running = ground (arith, lem.ends);
        prompt = lem.prompt;
        hashed = lem.hashed;
        identified = lem.identified;
        unchanged = unchanged;
      }
