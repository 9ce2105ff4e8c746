-- ===== src/Serving/Effects.antt =====
-- `KServeEffects` of control_plane/kserve_effects.py over the API of the cluster.
pub mod Readiness
pub mod Probes
use ml_template.Prelude.Actions.{Action, return, raise, lift, catch, ◌>>=◌, ◌>>◌}
use ml_template.Prelude.{
  conflict, http, map, ℕ, String, Bool, Option, check, value_error, [], ◌∷◌, if◌then◌else◌, filter,
  ◌==◌, leb, any, not, ◌||◌, eqb, codes, ◌&&◌, ℕ_eq, map, ◌+◌, break_at, ◌++◌, list_beq, false,
  some, none, true, Option_eq, List_eq, String_eq,
}
use ml_template.Release.Types.{ServingPair, Text}
use ml_template.Release.Controller.{Lane, stable, canary}
use ml_template.Release.Pairs.{urlsplit}
use ml_template.Serving.Scaling.{Environment}
use ml_template.Serving.Objects.{
  Runtime, Service, Held, Deployment, runtime_manifest, lane_manifest, runtime_name,
}
use ml_template.Serving.Matching.{validate_runtime, lane_matches, deployment_ready}

-- The answer of a backend: the metadata that the code reads, or an HTTP error of this code.
pub record Metadata : Type 0 where
  pub name : Option String
  pub has_inputs : Bool
  pub has_outputs : Bool

pub data Probe : Type 0 where
  answered : Metadata → Probe
  http_error : ℕ → Probe

-- The API: a `get` of what does not exist returns none, a `create` of what exists raises Conflict,
-- and a `replace` names the version that it replaces.
pub record Api (W : Type 0) : Type 0 where
  pub get_runtime : Text → Action W (Option Runtime)
  pub create_runtime : Runtime → Action W (Unit {0})
  pub get_service : Lane → Action W (Option Held)
  pub create_service : Lane → Service → Action W (Unit {0})
  pub replace_service : Lane → Service → String → Action W (Unit {0})
  pub get_deployment : Lane → Action W (Option Deployment)
  -- a GET below the address of a lane
  pub probe : Text → Action W Probe

abbrev pub lane_name : Lane → String
lane_name stable = "credit-risk-stable-v2"
lane_name canary = "credit-risk-canary-v2"

lower : ℕ → ℕ
lower c = if leb b'A' c && leb c b'Z' then c + 32 else c

-- what urlsplit drops: the leading control characters and spaces, and every tab and line break
clean : Text → Text
clean [] = []
clean (c ∷ s) = let rest = clean s in if leb c 32 then rest else c ∷ s

is_break : ℕ → Bool
is_break c = c == 9 || c == 10 || c == 13

-- the part of a network location behind the last @
after_at : Text → Text
after_at [] = []
after_at (c ∷ s) = let rest = after_at s in if any (eqb b'@') (c ∷ s) then rest else c ∷ s

-- the part before it
before_at : Text → Text
before_at [] = []
before_at (c ∷ s) = let rest = before_at s in if any (eqb b'@') s then c ∷ rest else []

-- an internal address: http, one of the two names of the lane, no user name, query or fragment
unfoldable pub is_internal : Lane → String → Bool
unfolding lower clean is_break after_at before_at urlsplit
is_internal lane address =
    let u = urlsplit (filter (λ c. not (is_break c)) (clean (codes address))) in
    let host = map lower (break_at (eqb b':') (after_at u.netloc)).0 in
    let user = (break_at (eqb b':') (before_at u.netloc)).0 in
    let base = codes (lane_name lane) ++ codes "-predictor.production.svc" in
    list_beq (map lower u.scheme) (codes "http")
    && (list_beq host (base ++ codes ".cluster.local") || list_beq host base)
    && list_beq user []
    && list_beq u.query []
    && list_beq u.fragment []

-- `address.rstrip("/")`
unfoldable pub trimmed : Text → Text
trimmed [] = []
trimmed (c ∷ s) = let rest = trimmed s in if c == b'/' && list_beq rest [] then [] else c ∷ rest

-- a code of an HTTP error that says that the backend is not ready yet
is_pending : ℕ → Bool
is_pending code = code == 404 || code == 503

-- The parameters: the API, the digits that `int` reads, and the environment.
module _ {W : Type 0} (api : Api W) (digit_value : ℕ → Option ℕ) (env : Environment) where
  -- `if existing is None` of `ensure_runtime`
  provide_runtime : Text → Runtime → Option Runtime → Action W (Option Runtime)
  provide_runtime name desired (some r) = return (some r)
  provide_runtime name desired none = do
    catch (api.create_runtime desired) (λ e. elim e [ conflict ↦ return tt | other ↦ raise other ])
    api.get_runtime name

  unfoldable pub ensure_runtime : String → String → Action W (Unit {0})
  unfolding provide_runtime
  ensure_runtime fingerprint image = do
    desired ← lift (runtime_manifest fingerprint image)
    found ← api.get_runtime desired.name
    existing ← provide_runtime desired.name desired found
    lift (validate_runtime existing fingerprint image)

  -- what `ensure` does with the object of the lane
  reconcile_lane : Lane → Service → Option Held → Action W Bool
  reconcile_lane lane desired none = do
    catch (api.create_service lane desired)
        (λ e. elim e [ conflict ↦ return tt | other ↦ raise other ])
    return false
  reconcile_lane lane desired (some held) = do
    same ← lift (lane_matches held.service desired)
    (if same
        then return true
        else (do api.replace_service lane desired held.resource_version; return false))

  -- `ensure`
  unfoldable pub ensure : Lane → ServingPair → String → Action W Bool
  unfolding ensure_runtime reconcile_lane
  ensure lane pair fingerprint = do
    ensure_runtime fingerprint pair.runtime_digest
    desired ← lift (lane_manifest digit_value env lane pair fingerprint)
    existing ← api.get_service lane
    reconcile_lane lane desired existing

  -- the state of the object: the newest generation is observed, and ready
  has_converged : Held → ServingPair → Text → Bool
  has_converged held pair name =
      held.service.model.runtime == some name
      && held.service.model.storage_uri == some pair.storage_uri
      && held.service.model_version == some pair.model_version
      && leb held.generation held.observed_generation
      && held.is_ready

  -- one probe: its metadata, or none if the backend is not ready yet
  ask : Text → Action W (Option Metadata)
  unfolding is_pending
  ask url = do
    answer ← api.probe url
    elim answer [
      | answered m ↦ return (some m)
      | http_error code ↦ if is_pending code then return none else raise http
    ]

  -- the three probes, of which the last one is read
  ask_backend : Lane → Text → Action W (Option Metadata)
  unfolding ask
  ask_backend lane base = do
    live ← ask (base ++ codes "/v2/health/ready")
    elim live [
      | none ↦ return none
      | some _ ↦ (do
        up ← ask (base ++ codes "/v2/models/" ++ (codes (lane_name lane) ++ codes "/ready"))
        elim up [
          | none ↦ return none
          | some _ ↦ ask (base ++ codes "/v2/models/" ++ codes (lane_name lane))
        ])
    ]

  -- the end of `ready`
  pub probe_backend : Lane → String → Action W Bool
  unfolding ask_backend trimmed
  probe_backend lane address = do
    lift (check (is_internal lane address) (value_error "Invalid internal KServe address"))
    answer ← ask_backend lane (trimmed (codes address))
    elim answer [
      | none ↦ return false
      | some m ↦ (do
        lift (
            check (m.name == some (lane_name lane) && m.has_inputs && m.has_outputs)
              (value_error "Backend metadata contract mismatch"))
        return true)
    ]

  -- the runtime and the deployment of a lane that has converged
  check_cluster : Lane → ServingPair → String → Held → Text → Action W Bool
  unfolding probe_backend
  check_cluster lane pair fingerprint held name = do
    runtime ← api.get_runtime name
    lift (validate_runtime runtime fingerprint pair.runtime_digest)
    deployment ← api.get_deployment lane
    (if deployment_ready deployment pair then probe_backend lane held.address else return false)

  -- `ready`, once the object of the lane is found
  check_lane : Lane → ServingPair → String → Held → Action W Bool
  unfolding has_converged check_cluster
  check_lane lane pair fingerprint held = do
    desired ← lift (lane_manifest digit_value env lane pair fingerprint)
    same ← lift (lane_matches held.service desired)
    name ← lift (runtime_name fingerprint)
    (if same && has_converged held pair name
        then check_cluster lane pair fingerprint held name
        else return false)

  check_found : Lane → ServingPair → String → Option Held → Action W Bool
  unfolding check_lane
  check_found lane pair fingerprint none = return false
  check_found lane pair fingerprint (some held) = check_lane lane pair fingerprint held

  -- `ready`
  unfoldable pub ready : Lane → ServingPair → String → Action W Bool
  unfolding check_found
  ready lane pair fingerprint = do
    found ← api.get_service lane
    check_found lane pair fingerprint found
