-- ===== src/Release/Host.antt =====
-- What the control plane computes by Python's library: hashes of canonical JSON, and its length.
use ml_template.Prelude.{ℕ, String, List, Bool, Result}
use ml_template.Release.Types.{Text, Json, Evidence, RuntimeProfile, State}

pub record Host : Type 0 where
  -- json.loads, which raises ValueError on a text that is no JSON
  pub json_loads : String → Result Json
  -- datetime.fromisoformat(stamp.replace("Z", "+00:00")) returns a time with a zone
  pub is_aware_stamp : String → Bool
  -- "sha256:" + hashlib.sha256(json.dumps(evidence, ...)).hexdigest()
  pub evidence_hash : Evidence → String
  -- the same of a payload of schema version 1 with these three entries
  pub contract_hash : Text → List Text → RuntimeProfile → String
  -- len(json.dumps(state, allow_nan=False).encode())
  pub state_size : State → ℕ
