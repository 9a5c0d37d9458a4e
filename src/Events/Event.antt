-- ===== src/Events/Event.antt =====
-- mas/decision_events.py: an event, its canonical body and its hash. A float is of the type `F`;
-- `json.dumps` of a body is the argument `dumps`, SHA-256 in hexadecimal the argument `sha256`.
use v.Prelude.{String, Option, none, some}
use v.Prelude.Dict.{Dict}
use Prim.Native.String.{◌++◌}

-- A JSON value; a number, a Boolean or a list is its text.
mutual
  pub data Value : Type 0 where
    null : Value
    text : String → Value
    literal : String → Value
    object : Fields → Value

  pub data Fields : Type 0 where
    nil : Fields
    field : String → Value → Fields → Fields

pub record Event (F : Type 0) : Type 0 where
  pub event_id : String
  pub project_id : String
  pub event_type : String
  pub event_time : String
  pub actor_type : String
  pub actor_id : String
  pub payload : Dict Value
  pub trace_id : String
  pub phase : String
  pub model_provider : String
  pub model_name : String
  pub cost_usd : F
  pub latency_ms : F
  pub prev_event_id : Option String
  pub event_hash : String

-- The dict that `_canonical_body` writes as JSON.
pub record Body (F : Type 0) : Type 0 where
  pub event_id : String
  pub project_id : String
  pub event_type : String
  pub event_time : String
  pub actor_type : String
  pub actor_id : String
  pub payload : Dict Value
  pub trace_id : String
  pub phase : String
  pub model_provider : String
  pub model_name : String
  pub cost_usd : F
  pub latency_ms : F
  pub prev_event_id : String

abbrev pub or_empty : Option String → String
or_empty none = ""
or_empty (some t) = t

abbrev pub body_of : {F : Type 0} → Event F → Body F
body_of e = record {
  event_id = e.event_id;
  project_id = e.project_id;
  event_type = e.event_type;
  event_time = e.event_time;
  actor_type = e.actor_type;
  actor_id = e.actor_id;
  payload = e.payload;
  trace_id = e.trace_id;
  phase = e.phase;
  model_provider = e.model_provider;
  model_name = e.model_name;
  cost_usd = e.cost_usd;
  latency_ms = e.latency_ms;
  prev_event_id = or_empty e.prev_event_id;
}

module _ {F : Type 0} (sha256 : String → String) (dumps : Body F → String) where
  unfoldable pub compute_hash : Event F → String → String
  compute_hash event prev_hash = sha256 (prev_hash ++ ("|" ++ dumps (body_of event)))
