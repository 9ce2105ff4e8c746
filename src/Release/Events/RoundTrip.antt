-- ===== src/Release/Events/RoundTrip.antt =====
-- What `parse_event` lets through, and its own output again.
use ml_template.Prelude.{
  ◌≡◌, ok, ℕ, String, arith, Error, >>=-eq-ok, Option, refl, check, ok-injective, subst,
}
use ml_template.Release.Host.{Host}
use ml_template.Release.Types.{Event, Json, str, null, Fields, obj}
use ml_template.Release.Pairs.{storage_uri, model, numeric_version}
use ml_template.Release.Events.{
  as_text, parse_event, parse_run, parse_stamp, parse_previous, parse_fields, optional_json,
  event_json, get, is_text, is_number,
}

module _ (h : Host) where
  -- The tests that the entries of a parsed event have passed.
  record IsParsed (e : Event) (version : ℕ) : Type 0 where
    named : e.model_name ≡ model
    versioned : numeric_version e.model_version ≡ ok version
    stored : storage_uri e.artifact_uri ≡ ok e.artifact_uri
    ran : parse_run h (str e.run_id) ≡ ok e.run_id
    follows : parse_previous h (optional_json e.previous_version) version ≡ ok e.previous_version
    stamped : parse_stamp h (str e.promoted_at) ≡ ok e.promoted_at

  storage_uri-same : (v : String) {u : String} → storage_uri v ≡ ok u → u ≡ v
  unfolding storage_uri
  storage_uri-same v e = ground arith

  as_text-str : (j : Json) (x : Error) {t : String} → as_text j x ≡ ok t → j ≡ str t
  unfolding as_text
  as_text-str (str s) x e = cc
  as_text-str _ x e = cc

  parse_run-same : (j : Json) {t : String} → parse_run h j ≡ ok t → parse_run h (str t) ≡ ok t
  unfolding parse_run as_text
  parse_run-same (str s) {t} e = ground arith
  parse_run-same _ e = cc

  parse_stamp-same : (j : Json) {t : String} → parse_stamp h j ≡ ok t → parse_stamp h (str t) ≡ ok t
  unfolding parse_stamp as_text
  parse_stamp-same (str s) {t} e = ground arith
  parse_stamp-same _ e = cc

  parse_previous-same :
      (j : Json) (v : ℕ) {t : Option String}
      → parse_previous h j v ≡ ok t
      → parse_previous h (optional_json t) v ≡ ok t
  unfolding parse_previous optional_json as_text
  parse_previous-same null v {t} e = ground arith
  parse_previous-same (str s) v {t} e = ground arith
  parse_previous-same _ v e = cc

  IsParsed-json :
      (e : Event) (version : ℕ) → IsParsed e version → parse_event h (event_json e) ≡ ok e
  unfolding parse_event parse_fields event_json get is_text is_number as_text
  IsParsed-json e version p = rw (p.named, p.versioned, p.stored, p.ran, p.follows, p.stamped) refl

  parse_fields-IsParsed :
      (fields : Fields) {e : Event}
      → parse_fields h fields ≡ ok e
      → (version : ℕ) × IsParsed e version
  unfolding parse_fields
  parse_fields-IsParsed fields {e} k =
      let (u1, schema, k1) = >>=-eq-ok (check (is_number 1 (get "schema_version" fields)) _) _ k in
      let (u2, kind, k2) =
        >>=-eq-ok (check (is_text "model_promoted" (get "event" fields)) _) _ k1 in
      let (u3, for_model, k3) =
        >>=-eq-ok (check (is_text model (get "model_name" fields)) _) _ k2 in
      let (u4, alias, k4) = >>=-eq-ok (check (is_text "champion" (get "alias" fields)) _) _ k3 in
      let (u5, space, k5) = >>=-eq-ok (check (is_text "mlops" (get "workspace" fields)) _) _ k4 in
      let (version_text, vt, k6) = >>=-eq-ok (as_text (get "model_version" fields) _) _ k5 in
      let (version, number, k7) = >>=-eq-ok (numeric_version version_text) _ k6 in
      let (uri, ut, k8) = >>=-eq-ok (as_text (get "artifact_uri" fields) _) _ k7 in
      let (uri', there, k9) = >>=-eq-ok (storage_uri uri) _ k8 in
      let (run, ran, k10) = >>=-eq-ok (parse_run h (get "run_id" fields)) _ k9 in
      let (previous, follows, k11) =
        >>=-eq-ok (parse_previous h (get "previous_version" fields) version) _ k10 in
      let (stamp, stamped, k12) = >>=-eq-ok (parse_stamp h (get "promoted_at" fields)) _ k11 in
      let made : record {
        model_name = model;
        model_version = version_text;
        artifact_uri = uri;
        run_id = run;
        previous_version = previous;
        promoted_at = stamp;
      }
          ≡ e =
        ok-injective k12 in
      (
        version,
        subst (λ x. IsParsed x version) made
            (record {
              named = refl;
              versioned = number;
              stored = rw (storage_uri-same uri there) at there;
              ran = parse_run-same (get "run_id" fields) ran;
              follows = parse_previous-same (get "previous_version" fields) version follows;
              stamped = parse_stamp-same (get "promoted_at" fields) stamped;
            }),
      )

  -- `parse_event` accepts what it returns, and returns it unchanged.
  pub parse_event-event_json :
      (j : Json) {e : Event} → parse_event h j ≡ ok e → parse_event h (event_json e) ≡ ok e
  unfolding parse_event
  parse_event-event_json (obj fields) {e} k =
      let (version, p) = parse_fields-IsParsed fields k in IsParsed-json e version p
  parse_event-event_json _ k = cc
