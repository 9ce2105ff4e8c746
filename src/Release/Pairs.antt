-- ===== src/Release/Pairs.antt =====
-- The serving pair of control_plane/state_v2.py: `storage_uri`, `runtime_image`, `numeric_version`
-- and the checks that `ServingPair.__post_init__` makes.
pub mod Bounds
use ml_template.Prelude.{
  ℕ, ◌-◌, ◌^◌, String, Bool, true, false, ◌&&◌, ◌||◌, not, Option, none, some, List, [], ◌∷◌, ◌++◌,
  Result, ok, err, value_error, check, ◌>>=◌, ◌>>◌, ltb, leb, eqb, if◌then◌else◌, ◌==◌, String_eq,
  List_eq, ℕ_eq, codes, is_digit, is_alnum, is_hex, strip_prefix, lstrip, break_at, decimal, length,
  drop, all, list_beq,
}
use ml_template.Release.Types.{ServingPair}

abbrev pub model : String
model = "credit-risk-classifier"

abbrev pub artifact_prefix : String
artifact_prefix = "mlflow/workspaces/mlops/27/models/"

abbrev pub bucket : String
bucket = "mlflow-test-artifacts-quangcm"

abbrev pub repository : String
repository = "596432515999.dkr.ecr.ap-southeast-1.amazonaws.com/model-service"

-- The parts of `urllib.parse.urlsplit` that the code reads. Python also drops control characters
-- and lowers the scheme; a text where that matters fails the last test of `storage_uri`.
pub record Url : Type 0 where
  pub scheme : List ℕ
  pub netloc : List ℕ
  pub path : List ℕ
  pub query : List ℕ
  pub fragment : List ℕ

is_netloc_end : ℕ → Bool
is_netloc_end c = eqb c b'/' || eqb c b'?' || eqb c b'#'

split_tail : List ℕ → List ℕ → List ℕ → Url
split_tail scheme netloc rest =
    let (front, fragment) = break_at (eqb b'#') rest in
    let (path, query) = break_at (eqb b'?') front in
    record {
      scheme = scheme;
      netloc = netloc;
      path = path;
      query = drop 1 query;
      fragment = drop 1 fragment;
    }

split_authority : List ℕ → List ℕ → Url
unfolding split_tail is_netloc_end
split_authority scheme rest = elim (strip_prefix (codes "//") rest) [
  | none ↦ split_tail scheme [] rest
  | some after ↦ let (netloc, tail) = break_at is_netloc_end after in split_tail scheme netloc tail
]

unfoldable pub urlsplit : List ℕ → Url
unfolding split_authority
urlsplit url =
    let (scheme, rest) = break_at (eqb b':') url in
    if list_beq rest [] then split_authority [] url else split_authority scheme (drop 1 rest)

-- [A-Za-z0-9_-]
abbrev pub is_id_char : ℕ → Bool
is_id_char c = is_alnum c || eqb c b'_' || eqb c b'-'

-- ARTIFACT_PREFIX [A-Za-z0-9_-]+ /artifacts
is_artifact_key : List ℕ → Bool
is_artifact_key key = elim (strip_prefix (codes artifact_prefix) key) [
  | none ↦ false
  | some rest ↦
      let (id, tail) = break_at (eqb b'/') rest in
      not (list_beq id []) && all is_id_char id && list_beq tail (codes "/artifacts")
]

unfoldable pub storage_uri : String → Result String
unfolding urlsplit is_artifact_key
storage_uri value = do
  check (leb (length (codes value)) 2048) (value_error "invalid_artifact_uri")
  let u = urlsplit (codes value)
  let key = lstrip b'/' u.path
  check
      (list_beq u.scheme (codes "s3")
        && list_beq u.netloc (codes bucket)
        && list_beq u.query []
        && list_beq u.fragment []
        && is_artifact_key key
        && list_beq (codes value) (codes "s3://" ++ (codes bucket ++ (codes "/" ++ key))))
      (value_error "invalid_artifact_uri")
  ok value

unfoldable pub is_digest_codes : List ℕ → Bool
is_digest_codes value = elim (strip_prefix (codes "sha256:") value) [
  | none ↦ false
  | some hex ↦ all is_hex hex && length hex == 64
]

-- `DIGEST.fullmatch(value)`: sha256:[0-9a-f]{64}
unfoldable pub is_digest : String → Bool
unfolding is_digest_codes
is_digest value = is_digest_codes (codes value)

unfoldable pub runtime_image : String → Result String
unfolding is_digest_codes
runtime_image value = elim (strip_prefix (codes repository ++ codes "@") (codes value)) [
  | none ↦ err (value_error "unexpected_runtime_repository")
  | some _ ↦
      check (is_digest_codes (drop 1 (break_at (eqb b'@') (codes value)).1))
        (value_error "invalid_runtime_digest")
      >> ok value
]

-- [1-9][0-9]{0,9}
is_version_text : List ℕ → Bool
is_version_text [] = false
is_version_text (c ∷ s) = is_digit c && not (c == b'0') && all is_digit s && leb (length s) 9

unfoldable pub numeric_version : String → Result ℕ
unfolding is_version_text
numeric_version value =
    check (is_version_text (codes value)) (value_error "invalid_model_version")
    >> check (leb (decimal 0 (codes value)) (2 ^ 31 - 1)) (value_error "invalid_model_version")
    >> ok (decimal 0 (codes value))

-- `ServingPair(**pair)`: the checks of `__post_init__`
unfoldable pub serving_pair : ServingPair → Result ServingPair
serving_pair p = do
  numeric_version p.model_version
  runtime_image p.runtime_digest
  storage_uri p.storage_uri
  ok p
