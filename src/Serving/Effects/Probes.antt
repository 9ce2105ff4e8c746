-- ===== src/Serving/Effects/Probes.antt =====
-- What a backend answers that is taken for ready.
use ml_template.Prelude.Actions.{◌>>◌, Action, bind-ok, lift-ok, lift, return, raise}
use ml_template.Prelude.{
  ℕ, String, Bool, Option, ok, ◌≡◌, true, some, none, and_iff, check-ok, ap, check, if◌then◌else◌,
  ◌&&◌, false, ◌∙◌, refl, codes, ◌++◌, http, Result, Bool-cases, inl, inr, Error, ◌==◌, ==_iff,
  Option_eq, String_eq,
}
use ml_template.Release.Types.{Text}
use ml_template.Release.Controller.{Lane}
use ml_template.Serving.Scaling.{Environment}
use ml_template.Serving.Effects.{
  Api, probe_backend, is_internal, Metadata, ask, trimmed, answered, Probe, http_error, lane_name,
  is_pending, ask_backend,
}

module _ {W : Type 0} (api : Api W) (digit_value : ℕ → Option ℕ) (env : Environment) where
  ask-answered :
      (url : Text) (w : W) {m : Metadata} {w' : W}
      → ask api digit_value env url w ≡ (ok (some m), w')
      → api.probe url w ≡ (ok (answered m), w')
  unfolding ask
  ask-answered url w {m} {w'} e =
      let (answer, v, got, e1) = bind-ok (api.probe url) _ w e in got ∙ read answer v e1
    where
      read :
          (answer : Probe) (v : W)
          → elim answer as (λ _. Action W (Option Metadata)) [
            | answered m ↦ return (some m)
            | http_error code ↦ if is_pending code then return none else raise http
          ]
              v
            ≡ (ok (some m), w')
          → Path (Result Probe × W) (ok answer, v) (ok (answered m), w')
      read (answered n) v k = cc
      read (http_error code) v k = elim (Bool-cases (is_pending code)) [
        | inl later ↦ let bad = (rw later at k) in cc
        | inr broken ↦ let bad = (rw broken at k) in cc
      ]

  some-answer :
      (o : Option Metadata) (next : Action W (Option Metadata)) (v : W) {m : Metadata} {w' : W}
      → elim o as (λ _. Action W (Option Metadata)) [ none ↦ return none | some _ ↦ next ] v
        ≡ (ok (some m), w')
      → (n : Metadata) × (o ≡ some n) × (next v ≡ (ok (some m), w'))
  some-answer none next v e = cc
  some-answer (some n) next v e = (n, refl, e)

  -- the three probes of a backend that is up
  abbrev pub Probed : Lane → Text → Metadata → W → W → Type 0
  Probed lane base metadata w w' =
      (w1 : W) × (w2 : W) × ((m : Metadata) × (api.probe (base ++ codes "/v2/health/ready") w
          ≡ (ok (answered m), w1)))
      × ((m : Metadata) × (api.probe
              (base ++ codes "/v2/models/" ++ (codes (lane_name lane) ++ codes "/ready")) w1
            ≡ (ok (answered m), w2)))
      × (api.probe (base ++ codes "/v2/models/" ++ codes (lane_name lane)) w2
          ≡ (ok (answered metadata), w'))

  ask_backend-Probed :
      (lane : Lane) (base : Text) (w : W) {m : Metadata} {w' : W}
      → ask_backend api digit_value env lane base w ≡ (ok (some m), w')
      → Probed lane base m w w'
  unfolding ask_backend
  ask_backend-Probed lane base w {m} {w'} e =
      let first = ask api digit_value env (base ++ codes "/v2/health/ready") in
      let second =
        ask api digit_value env
          (base ++ codes "/v2/models/" ++ (codes (lane_name lane) ++ codes "/ready")) in
      let (live, w1, r1, e1) = bind-ok first _ w e in
      let (m1, is_live, e2) = some-answer live _ w1 e1 in
      let (up, w2, r2, e3) = bind-ok second _ w1 e2 in
      let (m2, is_up, e4) = some-answer up _ w2 e3 in
      (
        w1,
        w2,
        (m1, ask-answered _ w (rw is_live at r1)),
        (m2, ask-answered _ w1 (rw is_up at r2)),
        ask-answered _ w2 e4,
      )

  -- the test of the metadata
  matching :
      (lane : Lane) (answer : Option Metadata) (e : Error) (v : W) {w' : W}
      → elim answer as (λ _. Action W Bool) [
        | none ↦ return false
        | some m ↦
            (lift (check (m.name == some (lane_name lane) && m.has_inputs && m.has_outputs) e)
              >> return true)
      ]
          v
        ≡ (ok true, w')
      → (m : Metadata) × (answer ≡ some m)
        × (v ≡ w')
        × (m.name ≡ some (lane_name lane))
        × ((m.has_inputs ≡ true) × (m.has_outputs ≡ true))
  matching lane none e v h = cc
  matching lane (some m) e v h =
      let test = m.name == some (lane_name lane) && m.has_inputs && m.has_outputs in
      let (u, v1, r, h1) = bind-ok (lift (check test e)) (λ _. return true) v h in
      let (passed, same) = lift-ok (check test e) v r in
      let (front, outputs) =
        (and_iff (m.name == some (lane_name lane) && m.has_inputs) m.has_outputs).0
          (check-ok test e passed) in
      let (named, inputs) = (and_iff (m.name == some (lane_name lane)) m.has_inputs).0 front in
      (
        m,
        refl,
        same ∙ ap (λ p. p.1) h1,
        (==_iff m.name (some (lane_name lane))).0 named,
        (inputs, outputs),
      )

  -- A backend that is taken for ready is at an internal address and answered the three probes.
  pub probe_backend-Probed :
      (lane : Lane) (address : String) (w : W) {w' : W}
      → probe_backend api digit_value env lane address w ≡ (ok true, w')
      → (is_internal lane address ≡ true)
        × (m : Metadata) × (m.name ≡ some (lane_name lane))
        × ((m.has_inputs ≡ true) × (m.has_outputs ≡ true))
        × Probed lane (trimmed (codes address)) m w w'
  unfolding probe_backend
  probe_backend-Probed lane address w {w'} e =
      let (u, v, checked, e1) = bind-ok (lift (check (is_internal lane address) _)) _ w e in
      let (inside, same) = lift-ok (check (is_internal lane address) _) w checked in
      let (answer, v1, asked, e2) =
        bind-ok (ask_backend api digit_value env lane (trimmed (codes address))) _ v e1 in
      let (m, is_m, last, named, tensors) = matching lane answer _ v1 e2 in
      (
        check-ok _ _ inside,
        m,
        named,
        tensors,
        ask_backend-Probed lane (trimmed (codes address)) w (rw (← same, is_m, last) at asked),
      )
