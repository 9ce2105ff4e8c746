-- ===== src/Release/Pairs/Bounds.antt =====
-- What the checks of a serving pair let through.
use ml_template.Prelude.{
  ℕ, ◌+◌, ◌-◌, ◌*◌, ◌^◌, ◌≤◌, String, true, List, [], ◌∷◌, ◌≡◌, refl, arith, ok, decimal, codes,
  text_loops,
}
use ml_template.Release.Pairs.{numeric_version, is_version_text, storage_uri}

abbrev sample_uri : String
sample_uri = "s3://mlflow-test-artifacts-quangcm/mlflow/workspaces/mlops/27/models/m-1_a/artifacts"

storage_uri-sample : storage_uri sample_uri ≡ ok sample_uri
unfolding storage_uri text_loops
storage_uri-sample = refl

decimal-ge : (n : ℕ) (s : List ℕ) → n ≤ decimal n s
unfolding decimal
decimal-ge n [] = omega arith
decimal-ge n (c ∷ s) = omega (arith, decimal-ge (n * 10 + (c - 48)) s)

is_version_text-pos : (s : List ℕ) → is_version_text s ≡ true → 1 ≤ decimal 0 s
unfolding is_version_text decimal
is_version_text-pos [] h = cc
is_version_text-pos (c ∷ s) h = ground (arith, decimal-ge (0 * 10 + (c - 48)) s)

-- A version that is accepted lies between 1 and 2^31 - 1.
pub numeric_version_bounds :
    (v : String) {n : ℕ} → numeric_version v ≡ ok n → (1 ≤ n) × (n ≤ 2 ^ 31 - 1)
unfolding numeric_version
numeric_version_bounds v h = ground (arith, is_version_text-pos (codes v))
