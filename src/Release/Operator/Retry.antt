-- ===== src/Release/Operator/Retry.antt =====
-- What an operator's retry does.
use ml_template.Prelude.{
  ◌≡◌, ok, String, filter, ◌∷◌, [], not, List, >>=-eq-ok, Bool-cases, check, inl, ◌==◌, inr, ==_iff,
  ap, refl, check-ok, ok-injective,
}
use ml_template.Release.Operator.{
  recover_resolution, retry_item, retry_version, retry_matches, retry_fields, is_note,
}
use ml_template.Release.Types.{Time, State, PendingItem, resolution_blocked}
use ml_template.Release.Authorization.{has_version}
use ml_template.Release.State.{audit}
use ml_template.Release.Pairs.{numeric_version}
use ml_template.Release.Equality.{Status_eq}

retry_matches-ok :
    (version operator note : String) (t : Time) (s : State) (items : List PendingItem) {v : String}
    {s' : State}
    → retry_matches version operator note t s items ≡ ok (v, s')
    → (item : PendingItem) × (items ≡ item ∷ [])
      × (item.status ≡ resolution_blocked)
      × (audit
            (record s { pending = retry_version version t s.pending })
            "operator_resolution_retry"
            t
            (retry_fields version operator note item)
          ≡ s')
unfolding retry_matches
retry_matches-ok version operator note t s [] e = cc
retry_matches-ok version operator note t s (item ∷ []) {v} {s'} e =
    let (u, blocked, e1) = >>=-eq-ok (check (item.status == resolution_blocked) _) _ e in
    (
      item,
      refl,
      (==_iff item.status resolution_blocked).0 (check-ok _ _ blocked),
      ap (λ p. p.1) (ok-injective e1),
    )
retry_matches-ok version operator note t s (item ∷ other ∷ rest) e = cc

retry_item-has_version :
    (version : String) (t : Time) (x : PendingItem)
    → has_version version (retry_item t x) ≡ has_version version x
unfolding retry_item has_version
retry_item-has_version version t x = refl

retry_version-hit :
    (version : String) (t : Time) (items : List PendingItem) {item : PendingItem}
    → filter (has_version version) items ≡ item ∷ []
    → filter (has_version version) (retry_version version t items) ≡ retry_item t item ∷ []
unfolding retry_version
retry_version-hit version t [] e = cc
retry_version-hit version t (x ∷ rest) {item} e = elim (Bool-cases (has_version version x)) [
  | inl hit ↦
      let k : x ∷ filter (has_version version) rest ≡ item ∷ [] = rw hit at e in
      rw (hit, retry_item-has_version version t x, hit) cc
  | inr miss ↦ rw (miss, miss) (retry_version-hit version t rest (rw miss at e))
]

retry_version-rest :
    (version : String) (t : Time) (items : List PendingItem)
    → filter (λ x. not (has_version version x)) (retry_version version t items)
      ≡ filter (λ x. not (has_version version x)) items
unfolding retry_version
retry_version-rest version t [] = refl
retry_version-rest version t (x ∷ rest) = elim (Bool-cases (has_version version x)) [
  | inl hit ↦ rw (hit, retry_item-has_version version t x, hit) refl
  | inr miss ↦ rw (miss, miss) (ap (λ l. x ∷ l) (retry_version-rest version t rest))
]

-- A retry is granted only for the one pending item of the version, which is blocked. That item is
-- due at once with no attempts behind it; the route, the release, the stable pair, the lease and
-- the other pending items stay.
pub recover_resolution_lem :
    (version operator note : String) (t : Time) (s : State) {v : String} {s' : State}
    → recover_resolution version operator note t s ≡ ok (v, s')
    → (item : PendingItem) × (filter (has_version version) s.pending ≡ item ∷ [])
      × (item.status ≡ resolution_blocked)
      × (filter (has_version version) s'.pending ≡ retry_item t item ∷ [])
      × (filter (λ x. not (has_version version x)) s'.pending
          ≡ filter (λ x. not (has_version version x)) s.pending)
      × (s'.route ≡ s.route)
      × (s'.active ≡ s.active)
      × (s'.stable ≡ s.stable)
      × (s'.lease ≡ s.lease)
unfolding recover_resolution audit
recover_resolution_lem version operator note t s {v} {s'} e =
    let (n, numbered, e1) = >>=-eq-ok (numeric_version version) _ e in
    let (u1, named, e2) = >>=-eq-ok (check (is_note operator) _) _ e1 in
    let (u2, noted, e3) = >>=-eq-ok (check (is_note note) _) _ e2 in
    let (item, only, status, made) = retry_matches-ok version operator note t s _ e3 in
    rw (← made) (
      item,
      only,
      status,
      retry_version-hit version t s.pending only,
      retry_version-rest version t s.pending,
      refl,
      refl,
      refl,
      refl,
    )
