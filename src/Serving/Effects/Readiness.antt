-- ===== src/Serving/Effects/Readiness.antt =====
-- What it takes for a lane to be ready.
use ml_template.Prelude.Actions.{Action, bind-ok, lift-ok, lift, return}
use ml_template.Prelude.{
  ℕ, String, Bool, Option, ok, ◌≡◌, ◌≤◌, true, some, none, and_iff, leb→le, ap, if◌then◌else◌, ◌&&◌,
  leb, false, ◌∙◌, refl, codes, ◌++◌, Option_eq, String_eq,
}
use ml_template.Release.Types.{ServingPair, Text}
use ml_template.Release.Controller.{Lane}
use ml_template.Serving.Scaling.{Environment}
use ml_template.Serving.Objects.{Runtime, Service, Held, Deployment, lane_manifest, runtime_name}
use ml_template.Serving.Matching.{validate_runtime, lane_matches, deployment_ready}
use ml_template.Serving.Effects.Probes.{Probed, probe_backend-Probed}
use ml_template.Serving.Effects.{
  Api, ready, check_found, check_lane, has_converged, check_cluster, is_internal, Metadata, trimmed,
  answered, lane_name,
}

module _ {W : Type 0} (api : Api W) (digit_value : ℕ → Option ℕ) (env : Environment) where
  -- What the calls of the cluster returned, from the world `w` on to `w'`: a lane that is the one
  -- asked for, whose newest generation is observed, at an internal address, on a runtime of the
  -- pinned image whose security is the expected one, a deployment that has rolled out the pair, and
  -- a backend whose metadata name the lane.
  pub record IsServing (lane : Lane) (pair : ServingPair) (fingerprint : String) (w w' : W)
      : Type 0 where
    pub w1 : W
    pub w2 : W
    pub w3 : W
    pub w4 : W
    pub w5 : W
    pub metadata : Metadata
    pub held : Held
    pub desired : Service
    pub name : Text
    pub runtime : Option Runtime
    pub deployment : Option Deployment
    pub found : api.get_service lane w ≡ (ok (some held), w1)
    pub looked_up : api.get_runtime name w1 ≡ (ok runtime, w2)
    pub deployed : api.get_deployment lane w2 ≡ (ok deployment, w3)
    pub live :
        (m : Metadata) × (api.probe (trimmed (codes held.address) ++ codes "/v2/health/ready") w3
          ≡ (ok (answered m), w4))
    pub loaded :
        (m : Metadata) × (api.probe
            (trimmed (codes held.address)
              ++ codes "/v2/models/"
              ++ (codes (lane_name lane) ++ codes "/ready"))
            w4
          ≡ (ok (answered m), w5))
    pub probed :
        api.probe (trimmed (codes held.address) ++ codes "/v2/models/" ++ codes (lane_name lane)) w5
        ≡ (ok (answered metadata), w')
    pub model : metadata.name ≡ some (lane_name lane)
    pub tensors : (metadata.has_inputs ≡ true) × (metadata.has_outputs ≡ true)
    pub asked : lane_manifest digit_value env lane pair fingerprint ≡ ok desired
    pub named : runtime_name fingerprint ≡ ok name
    pub matched : lane_matches held.service desired ≡ ok true
    pub observed : held.generation ≤ held.observed_generation
    pub converged : held.is_ready ≡ true
    pub validated : validate_runtime runtime fingerprint pair.runtime_digest ≡ ok tt
    pub rolled : deployment_ready deployment pair ≡ true
    pub internal : is_internal lane held.address ≡ true

  converged-parts :
      (held : Held) (pair : ServingPair) (name : Text)
      → has_converged api digit_value env held pair name ≡ true
      → (held.generation ≤ held.observed_generation) × (held.is_ready ≡ true)
  unfolding has_converged
  converged-parts held pair name h =
      let (front, ready_now) =
        (and_iff (_ && leb held.generation held.observed_generation) held.is_ready).0 h in
      let (before, seen) = (and_iff _ (leb held.generation held.observed_generation)).0 front in
      (leb→le held.generation held.observed_generation seen, ready_now)

  taken :
      (test : Bool) (m : Action W Bool) (w : W) {w' : W}
      → (if test then m else return false) w ≡ (ok true, w')
      → (test ≡ true) × (m w ≡ (ok true, w'))
  taken true m w e = (refl, e)
  taken false m w e = cc

  -- what a lane that has converged was checked against, from the world `w` on
  Checked : Lane → ServingPair → String → Held → Text → W → W → Type 0
  Checked lane pair fingerprint held name w w' =
      (runtime : Option Runtime) × (deployment : Option Deployment) × (w1 : W) × (w2 : W)
      × (metadata : Metadata) × (api.get_runtime name w ≡ (ok runtime, w1))
      × (validate_runtime runtime fingerprint pair.runtime_digest ≡ ok tt)
      × (api.get_deployment lane w1 ≡ (ok deployment, w2))
      × (deployment_ready deployment pair ≡ true)
      × (is_internal lane held.address ≡ true)
      × (metadata.name ≡ some (lane_name lane))
      × ((metadata.has_inputs ≡ true) × (metadata.has_outputs ≡ true))
      × Probed api digit_value env lane (trimmed (codes held.address)) metadata w2 w'

  check_cluster-Checked :
      (lane : Lane) (pair : ServingPair) (fingerprint : String) (held : Held) (name : Text) (w : W)
      {w' : W}
      → check_cluster api digit_value env lane pair fingerprint held name w ≡ (ok true, w')
      → Checked lane pair fingerprint held name w w'
  unfolding check_cluster Checked
  check_cluster-Checked lane pair fingerprint held name w e =
      let (runtime, w1, r1, e1) = bind-ok (api.get_runtime name) _ w e in
      let (u, w2, r2, e2) =
        bind-ok (lift (validate_runtime runtime fingerprint pair.runtime_digest)) _ w1 e1 in
      let (valid, same) =
        lift-ok (validate_runtime runtime fingerprint pair.runtime_digest) w1 r2 in
      let (deployment, w3, r3, e3) = bind-ok (api.get_deployment lane) _ w2 e2 in
      let (rolled, e4) = taken (deployment_ready deployment pair) _ w3 e3 in
      let (inside, m, named, tensors, probed) =
        probe_backend-Probed api digit_value env lane held.address w3 e4 in
      (
        runtime,
        deployment,
        w1,
        w3,
        m,
        r1,
        valid,
        rw (← same) at r3,
        rolled,
        inside,
        named,
        tensors,
        probed,
      )

  check_lane-IsServing :
      (lane : Lane) (pair : ServingPair) (fingerprint : String) (held : Held) (w0 w : W) {w' : W}
      → api.get_service lane w0 ≡ (ok (some held), w)
      → check_lane api digit_value env lane pair fingerprint held w ≡ (ok true, w')
      → IsServing lane pair fingerprint w0 w'
  unfolding check_lane Checked
  check_lane-IsServing lane pair fingerprint held w0 w {w'} found e =
      let (desired, w1, r1, e1) =
        bind-ok (lift (lane_manifest digit_value env lane pair fingerprint)) _ w e in
      let (asked, s1) = lift-ok (lane_manifest digit_value env lane pair fingerprint) w r1 in
      let (same, w2, r2, e2) = bind-ok (lift (lane_matches held.service desired)) _ w1 e1 in
      let (matches, s2) = lift-ok (lane_matches held.service desired) w1 r2 in
      let (name, w3, r3, e3) = bind-ok (lift (runtime_name fingerprint)) _ w2 e2 in
      let (named, s3) = lift-ok (runtime_name fingerprint) w2 r3 in
      let (both, e4) = taken (same && has_converged api digit_value env held pair name) _ w3 e3 in
      let (matched, converged) =
        (and_iff same (has_converged api digit_value env held pair name)).0 both in
      let (seen, up) = converged-parts held pair name converged in
      let c : Checked lane pair fingerprint held name w w' =
        rw (← s3, ← s2, ← s1) at (check_cluster-Checked lane pair fingerprint held name w3 e4) in
      let (
        runtime, deployment, v1, v2, metadata, looked_up, validated, deployed, rolled, internal,
        model, tensors, probes,
      ) =
        c in
      let (v3, v4, live, loaded, probed) = probes in
      record {
        w1 = w;
        w2 = v1;
        w3 = v2;
        w4 = v3;
        w5 = v4;
        metadata = metadata;
        held = held;
        desired = desired;
        name = name;
        runtime = runtime;
        deployment = deployment;
        found = found;
        looked_up = looked_up;
        deployed = deployed;
        live = live;
        loaded = loaded;
        probed = probed;
        model = model;
        tensors = tensors;
        asked = asked;
        named = named;
        matched = matches ∙ ap ok matched;
        observed = seen;
        converged = up;
        validated = validated;
        rolled = rolled;
        internal = internal;
      }

  -- A lane that is reported ready was, by what the cluster returned to the calls of the report, the
  -- one asked for, observed in its newest generation, at an internal address, on a validated runtime,
  -- with a deployment that has rolled out the pair, and its backend named the lane.
  pub ready-IsServing :
      (lane : Lane) (pair : ServingPair) (fingerprint : String) (w : W) {w' : W}
      → ready api digit_value env lane pair fingerprint w ≡ (ok true, w')
      → IsServing lane pair fingerprint w w'
  unfolding ready check_found
  ready-IsServing lane pair fingerprint w {w'} e =
      let (found, v, got, e1) = bind-ok (api.get_service lane) _ w e in go found v got e1
    where
      go :
          (found : Option Held) (v : W)
          → api.get_service lane w ≡ (ok found, v)
          → check_found api digit_value env lane pair fingerprint found v ≡ (ok true, w')
          → IsServing lane pair fingerprint w w'
      go none v got h = cc
      go (some held) v got h = check_lane-IsServing lane pair fingerprint held w v got h
