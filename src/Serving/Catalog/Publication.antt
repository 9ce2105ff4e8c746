-- ===== src/Serving/Catalog/Publication.antt =====
-- What the catalog holds after a publication.
use ml_template.Prelude.{
  String, ok, ◌≡◌, some, Option-cases, strip_prefix, Option, codes, check, ◌++◌, ◌==◌, ◌∙◌, ap, inl,
  ==_iff, inr, >>=-eq-ok, check-ok, sym, ok-injective, Option_eq, String_eq, none,
}
use ml_template.Serving.Catalog.{Registry, lookup, publish, add_image, publish_over}
use ml_template.Release.Pairs.{runtime_image, repository}
use ml_template.Prelude.Actions.{bind-ok, lift, lift-ok, return}
use ml_template.Serving.Rows.{digest_of, source_manifest}
use ml_template.Serving.Objects.{fingerprint_tag}

runtime_image-same : (value : String) {x : String} → runtime_image value ≡ ok x → x ≡ value
unfolding runtime_image
runtime_image-same value e =
    elim (Option-cases (strip_prefix (codes repository ++ codes "@") (codes value))) [
      | inl missing ↦ let bad = (rw (runtime_image, missing) at e) in cc
      | inr (rest, found) ↦
          let (u, checked, e1) =
            >>=-eq-ok (check _ _) (λ x. ok value) (rw (runtime_image, found) at e) in
          sym (ok-injective e1)
    ]

module _ {W : Type 0} (ecr : Registry W) where
  -- The image returned is the one asked for, it is pinned by a digest of the one repository, and a
  -- lookup of the fingerprint, the last thing that looked at the registry, found it.
  pub record Published (fingerprint image returned_image : String) (w' : W) : Type 0 where
    pub same : returned_image ≡ image
    pub pinned : runtime_image image ≡ ok image
    pub before : W
    pub found : lookup ecr fingerprint before ≡ (ok (some image), w')

  add_image-Published :
      (fingerprint image : String) (w : W) {x : String} {w' : W}
      → runtime_image image ≡ ok image
      → add_image ecr fingerprint image w ≡ (ok x, w')
      → Published fingerprint image x w'
  unfolding add_image
  add_image-Published fingerprint image w pinned e =
      let (response, w1, r1, e1) = bind-ok (ecr.batch_get_image (digest_of image)) _ w e in
      let (manifest, w2, r2, e2) =
        bind-ok (lift (source_manifest (digest_of image) response)) _ w1 e1 in
      let (u3, w3, r3, e3) = bind-ok (lift (check (ecr.is_json manifest) _)) _ w2 e2 in
      let (tag, w4, r4, e4) = bind-ok (lift (fingerprint_tag fingerprint)) _ w3 e3 in
      let (u5, w5, r5, e5) = bind-ok (ecr.put_image manifest (digest_of image) tag) _ w4 e4 in
      let (found, w6, r6, e6) = bind-ok (lookup ecr fingerprint) _ w5 e5 in
      let (u7, w7, r7, e7) =
        bind-ok (lift (check (found == some image) _)) (λ x. return image) w6 e6 in
      let (tested, still) = lift-ok (check (found == some image) _) w6 r7 in
      let seen : found ≡ some image = (==_iff found (some image)).0 (check-ok _ _ tested) in
      record {
        same = sym (ok-injective (ap (λ p. p.0) e7));
        pinned = pinned;
        before = w5;
        found = r6 ∙ (λ i. (ok (seen i), (still ∙ ap (λ p. p.1) e7) i));
      }

  publish_over-Published :
      (fingerprint image : String) (existing : Option String) (w0 w : W) {x : String} {w' : W}
      → runtime_image image ≡ ok image
      → lookup ecr fingerprint w0 ≡ (ok existing, w)
      → publish_over ecr fingerprint image existing w ≡ (ok x, w')
      → Published fingerprint image x w'
  unfolding publish_over
  publish_over-Published fingerprint image none w0 w pinned looked e =
      add_image-Published fingerprint image w pinned e
  publish_over-Published fingerprint image (some y) w0 w pinned looked e =
      let (u, w1, r1, e1) = bind-ok (lift (check (y == image) _)) (λ x. return y) w e in
      let (tested, still) = lift-ok (check (y == image) _) w r1 in
      let seen : y ≡ image = (==_iff y image).0 (check-ok _ _ tested) in
      record {
        same = sym (ok-injective (ap (λ p. p.0) e1)) ∙ seen;
        pinned = pinned;
        before = w0;
        found = looked ∙ (λ i. (ok (some (seen i)), (still ∙ ap (λ p. p.1) e1) i));
      }

  -- A publication that returns gives the image back, which is pinned by a digest in the one
  -- repository, and the last lookup of the fingerprint found exactly it.
  pub publish-Published :
      (fingerprint image : String) (w : W) {x : String} {w' : W}
      → publish ecr fingerprint image w ≡ (ok x, w')
      → Published fingerprint image x w'
  unfolding publish
  publish-Published fingerprint image w e =
      let (v, w1, r1, e1) = bind-ok (lift (runtime_image image)) _ w e in
      let pinned = (lift-ok (runtime_image image) w r1).0 in
      let (existing, w2, r2, e2) = bind-ok (lookup ecr fingerprint) _ w1 e1 in
      publish_over-Published fingerprint image existing w1 w2
        (pinned ∙ ap ok (runtime_image-same image pinned)) r2 e2
