-- ===== src/Events/Replay.antt =====
-- mas/decision_events.py: the replay of the log up to an event or an instant (`state_at`). A key
-- that the projection does not have is none; a phase or an action of a payload that is no text
-- counts as absent.
use v.Prelude.{
  ℕ, ◌+◌, String, Bool, true, Option, none, some, List, [], ◌∷◌, select, length, str_eq,
  if◌then◌else◌,
}
use v.Prelude.Dict.{Dict, get, put}
use v.Prelude.Texts.{text_le}
use v.Events.Event.{Value, null, text, object, Fields, nil, field, Event}
use v.Events.Log.{Reach, World, list_events}

pub record ProjectedApproval : Type 0 where
  pub approved_by : Value
  pub rationale : Value
  pub granted_at : String

pub record Projection : Type 0 where
  pub project_type : Option Value
  pub project_name : Option Value
  pub current_phase : Option String
  pub phase_status : Option (Dict String)
  pub phase_confidence : Option (Dict Value)
  pub kill_switch_active : Option Bool
  pub kill_switch_reason : Option Value
  pub kill_switch_triggered_by : Option Value
  pub risk_classification : Option Value
  pub risk_classification_rationale : Option Value
  pub risk_classification_set_by : Option Value
  pub approvals_granted : Option (Dict ProjectedApproval)
  pub budget_caps : Option (Dict Value)
  pub outcome_events_count : Option ℕ

abbrev pub empty_projection : Projection
empty_projection = record {
  project_type = none;
  project_name = none;
  current_phase = none;
  phase_status = none;
  phase_confidence = none;
  kill_switch_active = none;
  kill_switch_reason = none;
  kill_switch_triggered_by = none;
  risk_classification = none;
  risk_classification_rationale = none;
  risk_classification_set_by = none;
  approvals_granted = none;
  budget_caps = none;
  outcome_events_count = none;
}

-- payload.get(key, projection.get(key))
abbrev value_or : Option Value → Option Value → Value
value_or none none = null
value_or none (some v) = v
value_or (some v) old = v

-- payload.get(key, "")
abbrev value_of : Option Value → Value
value_of none = text ""
value_of (some v) = v

abbrev pub text_of : Option Value → String
text_of (some (text t)) = t
text_of _ = ""

-- payload.get("phase") or event.get("phase") or ""
abbrev pub phase_of : Dict Value → String → String
phase_of payload phase =
    if str_eq (text_of (get payload "phase")) "" then phase else text_of (get payload "phase")

-- projection.setdefault(key, {})[k] = v
abbrev pub set_in : {A : Type 0} → Option (Dict A) → String → A → Option (Dict A)
set_in none k v = some (put [] k v)
set_in (some d) k v = some (put d k v)

abbrev maybe_set : Option (Dict Value) → String → Option Value → Option (Dict Value)
maybe_set d k none = d
maybe_set d k (some v) = set_in d k v

abbrev if_set : Option Value → Option Value → Option Value
if_set none old = old
if_set (some v) old = some v

-- for key, value in updates.items(): if value is not None: caps[key] = value
unfoldable pub apply_updates : Fields → Dict Value → Dict Value
apply_updates nil caps = caps
apply_updates (field k null fs) caps = apply_updates fs caps
apply_updates (field k v fs) caps = apply_updates fs (put caps k v)

abbrev fields_of : Option Value → Fields
fields_of (some (object fs)) = fs
fields_of _ = nil

abbrev dict_or_empty : Option (Dict Value) → Dict Value
dict_or_empty none = []
dict_or_empty (some d) = d

abbrev count_or_zero : Option ℕ → ℕ
count_or_zero none = 0
count_or_zero (some n) = n

pub record StateAt : Type 0 where
  pub project_id : String
  pub projection : Projection
  pub as_of : Option (String × String)
  pub events_applied : ℕ

module _ {F : Type 0} where
  -- `_apply_event_to_projection`
  unfoldable pub apply_event : Projection → Event F → Projection
  unfolding apply_updates
  apply_event p e =
      if str_eq e.event_type "project.created"
      then record p {
        project_type = some (value_or (get e.payload "project_type") p.project_type);
        project_name = some (value_or (get e.payload "project_name") p.project_name);
        risk_classification = if_set (get e.payload "risk_classification") p.risk_classification;
      }
      else if str_eq e.event_type "phase.started"
      then (if str_eq (phase_of e.payload e.phase) "" then p else record p {
        phase_status = set_in p.phase_status (phase_of e.payload e.phase) "running";
        current_phase = some (phase_of e.payload e.phase);
      })
      else if str_eq e.event_type "phase.completed"
      then (if str_eq (phase_of e.payload e.phase) "" then p else record p {
        phase_status = set_in p.phase_status (phase_of e.payload e.phase) "completed";
        phase_confidence =
            maybe_set p.phase_confidence (phase_of e.payload e.phase) (get e.payload "confidence");
      })
      else if str_eq e.event_type "phase.failed"
      then (if str_eq (phase_of e.payload e.phase) "" then p else record p {
        phase_status = set_in p.phase_status (phase_of e.payload e.phase) "failed";
      })
      else if str_eq e.event_type "policy.kill_switch_triggered"
      then record p {
        kill_switch_active = some true;
        kill_switch_reason = some (value_of (get e.payload "reason"));
        kill_switch_triggered_by = some (value_of (get e.payload "triggered_by"));
      }
      else if str_eq e.event_type "policy.risk_classification_set"
      then record p {
        risk_classification =
            some (value_or (get e.payload "classification") p.risk_classification);
        risk_classification_rationale = some (value_of (get e.payload "rationale"));
        risk_classification_set_by = some (value_of (get e.payload "set_by"));
      }
      else if str_eq e.event_type "policy.approval_granted"
      then (if str_eq (text_of (get e.payload "action")) "" then p else record p {
        approvals_granted = set_in p.approvals_granted (text_of (get e.payload "action")) (record {
          approved_by = value_of (get e.payload "approved_by");
          rationale = value_of (get e.payload "rationale");
          granted_at = e.event_time;
        });
      })
      else if str_eq e.event_type "policy.budget_caps_updated"
      then record p {
        budget_caps =
            some
              (apply_updates (fields_of (get e.payload "updates")) (dict_or_empty p.budget_caps));
      }
      else if str_eq e.event_type "outcome.recorded"
      then record p { outcome_events_count = some (count_or_zero p.outcome_events_count + 1) }
      else p

  unfoldable pub replay : Projection → List (Event F) → Projection
  replay p [] = p
  replay p (e ∷ es) = replay (apply_event p e) es

  -- The events up to and with the first of this id.
  unfoldable pub up_to : String → List (Event F) → List (Event F)
  up_to id [] = []
  up_to id (e ∷ es) = let rest = up_to id es in if str_eq e.event_id id then e ∷ [] else e ∷ rest

  abbrev pub cut : String → String → List (Event F) → List (Event F)
  cut event_id at_time es =
      if str_eq event_id ""
      then (if str_eq at_time "" then es else select (λ e. text_le e.event_time at_time) es)
      else up_to event_id es

  abbrev last_of : List (Event F) → Option (String × String)
  last_of [] = none
  last_of (e ∷ []) = some (e.event_id, e.event_time)
  last_of (e ∷ f ∷ es) = last_of (f ∷ es)

  abbrev pub state_from : String → List (Event F) → StateAt
  state_from project es = record {
    project_id = project;
    projection = replay empty_projection es;
    as_of = last_of es;
    events_applied = length es;
  }

  -- `state_at`; a boundary that is None or an empty text is none
  unfoldable pub state_at : Reach → World F → String → String → String → ℕ → StateAt
  unfolding replay up_to list_events
  state_at reach w project event_id at_time limit =
      state_from project (cut event_id at_time (list_events reach w project "" "" limit))
