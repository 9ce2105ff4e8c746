-- ===== src/Service/Validation/Checked.antt =====
-- What an artifact that the adapter accepts holds.
use ml_template.Service.Answers.{
  Answer, returned, raised, require, >>=-eq-returned, require-returned, returned-injective,
  model_load_error,
}
use ml_template.Service.Artifact.{
  Pipeline, Contract, Value, Number, verified_feature_names, verified_target_names,
  verified_class_ids, verified_sklearn, verified_units, read_classes, is_supported, is_natural,
  as_version, is_text, verified_python, is_integral, naturals,
}
use ml_template.Service.Validation.{
  validate_artifact, Parts, read_parts, check_parts, check_model, contract_of, zip,
}
use ml_template.Prelude.{
  ℕ, List, String, ◌≡◌, ◌==◌, some, none, refl, ap, sym, all, ==_iff, Option, List_eq, Option_eq,
  String_eq, true, ◌∷◌, [], ℕ_eq, length,
}

abbrev pub verified_classes : List (ℕ × String)
verified_classes = (0, "setosa") ∷ (1, "versicolor") ∷ (2, "virginica") ∷ []

-- A model of two steps with the supported features and batch sizes, on the version of sklearn that
-- made it.
pub record IsVerified (sklearn : String) (model : Pipeline) (contract : Contract)
    (names : List (ℕ × String)) : Type 0 where
  pub two_steps : is_supported model.steps ≡ true
  pub features : contract.feature_names ≡ verified_feature_names
  pub least : contract.min_batch_size ≡ 1
  pub most : contract.max_batch_size ≡ 100
  pub classes : names ≡ verified_classes
  pub runtime : sklearn ≡ contract.sklearn_version

-- What the checks of the metadata and of the model leave.
zip_verified : zip verified_class_ids verified_target_names ≡ verified_classes
unfolding zip
zip_verified = refl

checked_targets :
    (sklearn : String) (parts : Parts) {version : String}
    → check_parts sklearn parts ≡ returned version
    → (parts.feature_names ≡ verified_feature_names)
      × (parts.target_names ≡ verified_target_names)
      × (sklearn ≡ verified_sklearn)
unfolding check_parts
checked_targets sklearn parts e =
    let (u, features, e1) =
      >>=-eq-returned (require (parts.feature_names == verified_feature_names) _) _ e in
    let (u1, targets, e2) =
      >>=-eq-returned (require (parts.target_names == verified_target_names) _) _ e1 in
    let (u2, units, e3) =
      >>=-eq-returned (require (is_text verified_units parts.feature_units) _) _ e2 in
    let (u3, version, e4) = >>=-eq-returned (as_version parts.model_version) _ e3 in
    let (u4, python, e5) =
      >>=-eq-returned (require (is_text verified_python parts.python_version) _) _ e4 in
    let (u5, artifact, e6) =
      >>=-eq-returned (require (is_text verified_sklearn parts.sklearn_version) _) _ e5 in
    let (u6, runtime, e7) = >>=-eq-returned (require (sklearn == verified_sklearn) _) _ e6 in
    (
      (==_iff parts.feature_names verified_feature_names).0 (require-returned _ _ features),
      (==_iff parts.target_names verified_target_names).0 (require-returned _ _ targets),
      (==_iff sklearn verified_sklearn).0 (require-returned _ _ runtime),
    )

read_classes_lem :
    (ids : List Number) (names : List String) {found : List ℕ}
    → read_classes ids names ≡ returned found
    → found ≡ verified_class_ids
unfolding read_classes
read_classes_lem ids names e =
    let (u, integral, e1) = >>=-eq-returned (require (all is_integral ids) _) _ e in
    let (u1, same, e2) = >>=-eq-returned (require (length ids == length names) _) _ e1 in
    let (u2, verified, e3) =
      >>=-eq-returned (require (naturals ids == some verified_class_ids) _) _ e2 in
    sym (returned-injective e3)

checked_classes :
    (sklearn : String) (parts : Parts) {found : List ℕ}
    → check_model sklearn parts ≡ returned found
    → (is_supported parts.model.steps ≡ true) × (found ≡ verified_class_ids)
unfolding check_model
checked_classes sklearn parts e =
    let (u, supported, e1) = >>=-eq-returned (require (is_supported parts.model.steps) _) _ e in
    let (u1, count, e2) =
      >>=-eq-returned
        (require (is_natural (length parts.feature_names) parts.model.n_features_in) _) _ e1 in
    (require-returned _ _ supported, go parts.model.classes e2)
  where
    go :
        (classes : Option (List Number)) {found : List ℕ}
        → elim classes as (λ _. Answer (List ℕ)) [
          | none ↦ raised (model_load_error "Artifact model classes are malformed")
          | some ids ↦ read_classes ids parts.target_names
        ]
          ≡ returned found
        → found ≡ verified_class_ids
    go none h = cc
    go (some ids) h = read_classes_lem ids parts.target_names h

-- An artifact that is accepted is supported.
pub validate_artifact-IsVerified :
    (sklearn : String) (artifact : Value) {m : Pipeline} {c : Contract} {names : List (ℕ × String)}
    → validate_artifact sklearn artifact ≡ returned (m, c, names)
    → IsVerified sklearn m c names
unfolding validate_artifact contract_of
validate_artifact-IsVerified sklearn artifact {m} {c} {names} e =
    let (parts, read, e1) = >>=-eq-returned (read_parts artifact) _ e in
    let (version, checked, e2) = >>=-eq-returned (check_parts sklearn parts) _ e1 in
    let (ids, classes, e3) = >>=-eq-returned (check_model sklearn parts) _ e2 in
    let (features, targets, runtime) = checked_targets sklearn parts checked in
    let (supported, found) = checked_classes sklearn parts classes in
    let all_equal = returned-injective e3 in
    let same_model : parts.model ≡ m = ap (λ p. p.0) all_equal in
    let same_contract : contract_of sklearn parts version ids ≡ c = ap (λ p. p.1) all_equal in
    let same_names : zip ids parts.target_names ≡ names = ap (λ p. p.2) all_equal in
    record {
      two_steps = rw (sym same_model) supported;
      features = rw (sym same_contract) features;
      least = rw (sym same_contract) refl;
      most = rw (sym same_contract) refl;
      classes = rw (sym same_names, found, targets) zip_verified;
      runtime = rw (sym same_contract) runtime;
    }
