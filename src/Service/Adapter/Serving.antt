-- ===== src/Service/Adapter/Serving.antt =====
-- Predictions that a loaded adapter does not refuse.
use ml_template.Service.Answers.{returned, Answer, raised, inference_error}
use ml_template.Service.Adapter.{
  Instance, Feature, prepare_all, prepare_row, feature, normalize, entry_value, is_positive,
  same_names, positive, all_positive, predict, class_name, name_of, names_of, name_predictions,
  predict_with, run_model, prepare_rows, Adapter,
}
use ml_template.Prelude.{
  ◌⊎◌, ℕ, List, String, ◌≡◌, ◌==◌, refl, all, String_eq, true, ◌∷◌, [], ◌&&◌, ℕ_eq, and_iff,
  Bool-cases, is_some, inl, inr, any, Option, some, length, none, leb,
}
use ml_template.Service.Artifact.{Number, natural, verified_feature_names, not_integral, negative}
use ml_template.Service.Loading.{IsLoaded}
use ml_template.Service.Validation.Checked.{verified_classes}

entry_value-returned :
    (name : String) (instance : Instance)
    → all_positive instance ≡ true
    → is_some (feature name instance) ≡ true
    → (n : ℕ) × (entry_value (feature name instance) ≡ returned n)
unfolding entry_value feature is_positive normalize
entry_value-returned name [] h found = cc
entry_value-returned name ((k, v) ∷ rest) h found = elim (Bool-cases (k == name)) [
  | inl hit ↦ (let (n, e) = go v ((and_iff _ _).0 h).0 in (n, rw hit e))
  | inr miss ↦ rw miss (entry_value-returned name rest ((and_iff _ _).0 h).1 (rw miss at found))
]
  where
    go : (v : Feature) → is_positive v ≡ true → (n : ℕ) × (normalize v ≡ returned n)
    go (positive n) e = (n, refl)
    go _ e = cc

prepare_row-returned :
    (instance : Instance) (names : List String)
    → all_positive instance ≡ true
    → all (λ name. is_some (feature name instance)) names ≡ true
    → (row : List ℕ) × (prepare_row instance names ≡ returned row)
unfolding prepare_row
prepare_row-returned instance [] h found = ([], refl)
prepare_row-returned instance (name ∷ names) h found =
    let (here, more) = (and_iff _ _).0 found in
    let (n, e) = entry_value-returned name instance h here in
    let (row, e') = prepare_row-returned instance names h more in (n ∷ row, rw (e, e') refl)

prepare_all-returned :
    (names : List String) (instances : List Instance)
    → all (λ i. same_names i names && all_positive i) instances ≡ true
    → (rows : List (List ℕ)) × (prepare_all names instances ≡ returned rows)
unfolding prepare_all same_names
prepare_all-returned names [] h = ([], refl)
prepare_all-returned names (i ∷ rest) h =
    let (here, more) = (and_iff _ _).0 h in
    let (same, numbers) = (and_iff (same_names i names) (all_positive i)).0 here in
    let (row, e) =
      prepare_row-returned i names numbers
        ((and_iff (all (λ entry. any (λ name. name == entry.0) names) i)
            (all (λ name. is_some (feature name i)) names)).0
          same).1 in
    let (rows, e') = prepare_all-returned names rest more in
    (row ∷ rows, rw (prepare_all, same, e, e') refl)

-- A call that returned, or reported a failed inference.
unfoldable pub Served {ℓ} : {A : Type ℓ} → Answer A → Type ℓ
Served {A = A} r =
    ((a : A) × (r ≡ returned a)) ⊎ ((what : String) × (r ≡ raised (inference_error what)))

class_name-Served : (names : List (ℕ × String)) (id : ℕ) → Served (class_name names id)
unfolding Served class_name
class_name-Served [] id = inr (_, refl)
class_name-Served ((k, name) ∷ rest) id = elim (Bool-cases (k == id)) [
  | inl hit ↦ rw hit (inl (name, refl))
  | inr miss ↦ rw miss (class_name-Served rest id)
]

name_of-Served : (names : List (ℕ × String)) (p : Number) → Served (name_of names p)
unfolding Served name_of
name_of-Served names (natural id) = class_name-Served names id
name_of-Served names not_integral = inr (_, refl)
name_of-Served names negative = inr (_, refl)

names_of-Served : (names : List (ℕ × String)) (ps : List Number) → Served (names_of names ps)
unfolding Served names_of
names_of-Served names [] = inl ([], refl)
names_of-Served names (p ∷ rest) = elim (name_of-Served names p) [
  | inr (what, e) ↦ inr (what, rw e refl)
  | inl (name, e) ↦ elim (names_of-Served names rest) [
    | inr (what, e') ↦ inr (what, rw (e, e') refl)
    | inl (others, e') ↦ inl (name ∷ others, rw (e, e') refl)
  ]
]

name_predictions-Served :
    (names : List (ℕ × String)) (rows : List (List ℕ)) (output : Option (List Number))
    → Served (name_predictions names rows output)
unfolding Served name_predictions
name_predictions-Served names rows none = inr (_, refl)
name_predictions-Served names rows (some ps) = elim (Bool-cases (length ps == length rows)) [
  | inl same ↦ rw same (names_of-Served names ps)
  | inr differ ↦ rw differ (inr (_, refl))
]

-- A loaded adapter does not refuse a batch within the bounds that has the features.
pub predict-Served :
    (sklearn : String) (a : Adapter) (instances : List Instance)
    → IsLoaded sklearn a
    → (leb 1 (length instances) && leb (length instances) 100) ≡ true
    → all (λ i. same_names i verified_feature_names && all_positive i) instances ≡ true
    → Served (predict a instances)
unfolding predict predict_with run_model prepare_rows
predict-Served sklearn a instances l sized fits =
    let (rows, e) = prepare_all-returned verified_feature_names instances fits in
    rw
      (
        l.has_model, l.has_contract, l.has_names, l.verified.least, l.verified.most, sized,
        l.verified.features, e,
      )
      (name_predictions-Served verified_classes rows (l.model.run rows))
