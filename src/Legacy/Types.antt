-- ===== src/Legacy/Types.antt =====
-- The state of control_plane/state.py and what it holds.
use ml_template.Prelude.{ℕ, Bool, String, Option, List, Result}
use ml_template.Release.Types.{Time, AuditEntry, Phase, Route, Lease}

-- A time of an image in microseconds from 31 December of the year 0, so that a time before `epoch`
-- is one that the code holds as a negative number.
abbrev pub Stamp : Type 0
Stamp = ℕ

abbrev pub epoch : Stamp
epoch = 62135683200000000

-- Decoded JSON, as far as the code looks at it.
mutual
  pub data Value : Type 0 where
    nothing : Value
    truth : Bool → Value
    number : Bool → Value
    text : String → Value
    sequence : Bool → Value
    object : Entries → Value

  pub data Entries : Type 0 where
    end : Entries
    entry : String → Value → Entries → Entries

-- A version of the one model that is released; its "model" is that model's name.
pub record Release : Type 0 where
  pub version : ℕ
  pub digest : String
  pub source_time : Stamp

-- The active release: a candidate with the keys that the controller gives it. A key that is missing
-- is none, and a `restore_stable` that is missing is false, as the code reads it.
pub record Active : Type 0 where
  pub candidate : Release
  pub phase : Phase
  pub deadline : Time
  pub stage_since : Option Time
  pub previous_stable : Release
  pub reason : Option String
  pub restore_stable : Bool

pub record Failure : Type 0 where
  pub candidate : Release
  pub reason : String
  pub time : Time

pub record State : Type 0 where
  pub stable : Release
  pub active : Option Active
  pub pending : List Release
  pub processed : List String
  pub failed : List Failure
  pub audit : List AuditEntry
  pub route : Route
  pub lease : Option Lease

-- What Python's library computes for the code.
pub record Library : Type 0 where
  -- json.loads, which raises ValueError on a text that is no JSON
  pub json_loads : String → Result Value
  -- datetime.fromisoformat(raw.replace('Z', '+00:00')).timestamp(), none if that raises a ValueError
  -- or an OverflowError
  pub timestamp : String → Option Stamp
  -- the value of a decimal digit, which `\d` matches and `int` reads
  pub digit_value : ℕ → Option ℕ
  -- len(json.dumps(state).encode())
  pub state_size : State → ℕ
