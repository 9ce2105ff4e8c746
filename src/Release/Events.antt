-- ===== src/Release/Events.antt =====
-- `parse_event` and `identity` of control_plane/state_v2.py.
pub mod RoundTrip
use ml_template.Prelude.{
  ◌>>=◌, ◌>>◌, String_eq, ℕ_eq, String, ℕ, Error, Result, Option, if◌then◌else◌, Bool, ok,
  value_error, check, err, codes, none, leb, ◌==◌, false, all, ltb, length, some, ◌&&◌,
}
use ml_template.Release.Types.{Json, null, int, str, obj, Fields, end, entry, Event, Identity}
use ml_template.Release.Host.{Host}
use ml_template.Release.Pairs.{model, numeric_version, storage_uri, is_id_char}

-- `event.get(key)`. A key that stands twice has its last value in Python; `json_loads` and
-- `event_json` give each key once.
unfoldable pub get : String → Fields → Json
get key end = null
get key (entry k v rest) = if k == key then v else get key rest

-- `type(v) is type("...") and v == "..."`
unfoldable pub is_text : String → Json → Bool
is_text t (str s) = s == t
is_text t _ = false

unfoldable pub is_number : ℕ → Json → Bool
is_number n (int m) = m == n
is_number n _ = false

-- `isinstance(value, str)`, with the error of the caller
unfoldable pub as_text : Json → Error → Result String
as_text (str s) e = ok s
as_text _ e = err e

is_run_id : String → Bool
is_run_id run = let c = codes run in all is_id_char c && leb 1 (length c) && leb (length c) 128

module _ (h : Host) where
  -- the previous version, which must be below the promoted one
  parse_previous : Json → ℕ → Result (Option String)
  parse_previous null version = ok none
  parse_previous previous version = do
    text ← as_text previous (value_error "invalid_model_version")
    number ← numeric_version text
    check (ltb number version) (value_error "invalid_previous_version")
    ok (some text)

  parse_stamp : Json → Result String
  parse_stamp stamp = do
    text ← as_text stamp (value_error "invalid_promoted_at")
    check (leb (length (codes text)) 64 && h.is_aware_stamp text)
        (value_error "invalid_promoted_at")
    ok text

  parse_run : Json → Result String
  parse_run run = do
    text ← as_text run (value_error "invalid_run_id")
    check (is_run_id text) (value_error "invalid_run_id")
    ok text

  parse_fields : Fields → Result Event
  parse_fields event = do
    check (is_number 1 (get "schema_version" event)) (value_error "unsupported_schema_version")
    check (is_text "model_promoted" (get "event" event)) (value_error "unsupported_event")
    check (is_text model (get "model_name" event)) (value_error "unsupported_model_name")
    check (is_text "champion" (get "alias" event)) (value_error "unsupported_alias")
    check (is_text "mlops" (get "workspace" event)) (value_error "unsupported_workspace")
    model_version ← as_text (get "model_version" event) (value_error "invalid_model_version")
    version ← numeric_version model_version
    uri ← as_text (get "artifact_uri" event) (value_error "invalid_artifact_uri")
    storage_uri uri
    run_id ← parse_run (get "run_id" event)
    previous ← parse_previous (get "previous_version" event) version
    stamp ← parse_stamp (get "promoted_at" event)
    ok (record {
      model_name = model;
      model_version = model_version;
      artifact_uri = uri;
      run_id = run_id;
      previous_version = previous;
      promoted_at = stamp;
    })

  -- `parse_event` of a decoded object
  unfoldable pub parse_event : Json → Result Event
  unfolding parse_fields parse_run parse_previous parse_stamp is_run_id
  parse_event (obj fields) = parse_fields fields
  parse_event _ = err (value_error "invalid_event")

  -- `parse_event` of a message body
  unfoldable pub parse_body : String → Result Event
  parse_body body = h.json_loads body >>= parse_event

unfoldable pub optional_json : Option String → Json
optional_json none = null
optional_json (some s) = str s

-- The object that `parse_event` returns.
unfoldable pub event_json : Event → Json
event_json e = obj (
    entry "schema_version" (int 1) (
      entry "event" (str "model_promoted") (
        entry "model_name" (str e.model_name) (
          entry "alias" (str "champion") (
            entry "workspace" (str "mlops") (
              entry "model_version" (str e.model_version) (
                entry "artifact_uri" (str e.artifact_uri) (
                  entry "run_id" (str e.run_id) (
                    entry "previous_version" (optional_json e.previous_version)
                      (entry "promoted_at" (str e.promoted_at) end))))))))))

unfoldable pub identity : Event → Identity
identity e = record {
  model_name = e.model_name;
  model_version = e.model_version;
  artifact_uri = e.artifact_uri;
  run_id = e.run_id;
}
