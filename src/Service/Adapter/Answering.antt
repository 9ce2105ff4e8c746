-- ===== src/Service/Adapter/Answering.antt =====
-- What an answered prediction holds (src/model_service/model/adapter.py, `predict`).
use ml_template.Service.Answers.{
  returned, require, >>=-eq-returned, require-returned, returned-injective,
}
use ml_template.Service.Artifact.{
  Contract, Number, verified_target_names, natural, not_integral, negative,
}
use ml_template.Service.Validation.Checked.{verified_classes}
use ml_template.Service.Loading.{IsLoaded}
use ml_template.Service.Adapter.{
  Adapter, Instance, predict, prepare_rows, prepare_all, prepare_row, names_of, name_of, class_name,
  run_model, predict_with, same_names, name_predictions,
}
use ml_template.Prelude.{
  ℕ, List, String, ◌≡◌, ◌==◌, some, none, refl, ap, sym, all, any, Option, String_eq, true, ◌∷◌, [],
  ◌&&◌, ℕ_eq, length, ◌≤◌, leb, and_iff, ==_iff, leb→le, Bool, suc, ◌∙◌, Bool-cases, ◌||◌, inl,
  false, inr,
}

abbrev pub is_named : String → Bool
is_named name = any (λ known. known == name) verified_target_names

prepare_all-length :
    (names : List String) (instances : List Instance) {rows : List (List ℕ)}
    → prepare_all names instances ≡ returned rows
    → length rows ≡ length instances
unfolding prepare_all
prepare_all-length names [] e = rw (sym (returned-injective e)) refl
prepare_all-length names (i ∷ rest) e =
    let (u, same, e1) = >>=-eq-returned (require (same_names i names) _) _ e in
    let (row, prepared, e2) = >>=-eq-returned (prepare_row i names) _ e1 in
    let (rows, others, e3) = >>=-eq-returned (prepare_all names rest) _ e2 in
    rw (sym (returned-injective e3)) (ap suc (prepare_all-length names rest others))

prepare_rows-bounds :
    (c : Contract) (instances : List Instance) {rows : List (List ℕ)}
    → prepare_rows c instances ≡ returned rows
    → (c.min_batch_size ≤ length instances)
      × (length instances ≤ c.max_batch_size)
      × (length rows ≡ length instances)
unfolding prepare_rows
prepare_rows-bounds c instances e =
    let (u, sized, e1) =
      >>=-eq-returned
        (require
          (leb c.min_batch_size (length instances) && leb (length instances) c.max_batch_size) _)
        _ e in
    let (low, high) = (and_iff _ _).0 (require-returned _ _ sized) in
    (leb→le _ _ low, leb→le _ _ high, prepare_all-length c.feature_names instances e1)

or_true : (b : Bool) → (b || true) ≡ true
or_true true = refl
or_true false = refl

class_name-any :
    (names : List (ℕ × String)) (id : ℕ) {name : String}
    → class_name names id ≡ returned name
    → any (λ entry. entry.1 == name) names ≡ true
unfolding class_name
class_name-any [] id e = cc
class_name-any ((k, n) ∷ rest) id {name} e = elim (Bool-cases (k == id)) [
  | inl hit ↦
      let same = returned-injective (rw (class_name, hit) at e) in rw ((==_iff n name).1 same) refl
  | inr miss ↦ rw (class_name-any rest id (rw (class_name, miss) at e)) (or_true (n == name))
]

name_of-is_named :
    (p : Number) {name : String} → name_of verified_classes p ≡ returned name → is_named name ≡ true
unfolding name_of
name_of-is_named (natural id) e = class_name-any verified_classes id e
name_of-is_named not_integral e = cc
name_of-is_named negative e = cc

names_of_lem :
    (predictions : List Number) {names : List String}
    → names_of verified_classes predictions ≡ returned names
    → (length names ≡ length predictions) × (all is_named names ≡ true)
unfolding names_of
names_of_lem [] e = (rw (sym (returned-injective e)) refl, rw (sym (returned-injective e)) refl)
names_of_lem (p ∷ rest) e =
    let (name, named, e1) = >>=-eq-returned (name_of verified_classes p) _ e in
    let (others, more, e2) = >>=-eq-returned (names_of verified_classes rest) _ e1 in
    let (count, known) = names_of_lem rest more in
    (
      rw (sym (returned-injective e2)) (ap suc count),
      rw (sym (returned-injective e2)) ((and_iff _ _).1 (name_of-is_named p named, known)),
    )

-- A name of the contract for each of one to a hundred instances.
pub record IsAnswer (instances : List Instance) (names : List String) : Type 0 where
  pub least : 1 ≤ length instances
  pub most : length instances ≤ 100
  pub one_each : length names ≡ length instances
  pub known : all is_named names ≡ true

name_predictions_lem :
    (rows : List (List ℕ)) (output : Option (List Number)) {names : List String}
    → name_predictions verified_classes rows output ≡ returned names
    → (length names ≡ length rows) × (all is_named names ≡ true)
unfolding name_predictions
name_predictions_lem rows none e = cc
name_predictions_lem rows (some predictions) e =
    let (u, counted, e1) = >>=-eq-returned (require (length predictions == length rows) _) _ e in
    let (count, known) = names_of_lem predictions e1 in
    (count ∙ (==_iff (length predictions) (length rows)).0 (require-returned _ _ counted), known)

-- An adapter that is loaded answers only batches of one to a hundred instances, with one name of
-- the contract each.
pub predict-IsAnswer :
    (sklearn : String) (a : Adapter) (instances : List Instance) {names : List String}
    → IsLoaded sklearn a
    → predict a instances ≡ returned names
    → IsAnswer instances names
unfolding predict predict_with run_model
predict-IsAnswer sklearn a instances l e =
    let e' : run_model l.model l.contract verified_classes instances ≡ returned _ =
      rw (predict, predict_with, l.has_model, l.has_contract, l.has_names) at e in
    let (rows, prepared, e1) = >>=-eq-returned (prepare_rows l.contract instances) _ e' in
    let (low, high, rowed) = prepare_rows-bounds l.contract instances prepared in
    let (count, known) = name_predictions_lem rows (l.model.run rows) e1 in
    record {
      least = rw l.verified.least at low;
      most = rw l.verified.most at high;
      one_each = count ∙ rowed;
      known = known;
    }
