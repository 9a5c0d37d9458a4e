-- ===== src/Events/Examples.antt =====
-- Tests of the log of events (mas/decision_events.py), and the theorems at concrete inputs. A hash
-- is its text here, the text of a body the identifier of its event, a float a natural number.
use v.Prelude.{ℕ, String, ◌≡◌, ◌↔◌, refl, true, none, some, List, [], ◌∷◌, any, arith, eq_iff}
use v.Prelude.Dict.{get}
use v.Events.Event.{Event, Body, compute_hash}
use v.Events.Log.{
  Reach, absent, faulty, Link, World, NewEvent, events_of, list_events, verify_chain, append,
  unhashed,
}
use v.Events.Replay.{state_at, cut}
use v.Events.Chain.{Call, append_all, verify_chain-append}
use v.Events.Tamper.{SameLog, verify_chain-same, fallback_breaks}
use v.Events.History.{kills, state_at-kill_iff}

abbrev plain_hash : String → String
plain_hash t = t

abbrev id_of : Body ℕ → String
id_of b = b.event_id

abbrev iso : ℕ → String
iso n = "2026-01-01T00:00:00"

abbrev event_named : String → String → Event ℕ
event_named id type = record {
  event_id = id;
  project_id = "p";
  event_type = type;
  event_time = "2026-01-01T00:00:00";
  actor_type = "system";
  actor_id = "";
  payload = [];
  trace_id = "";
  phase = "";
  model_provider = "";
  model_name = "";
  cost_usd = 0;
  latency_ms = 0;
  prev_event_id = none;
  event_hash = "";
}

abbrev new_kill : NewEvent ℕ
new_kill = record {
  project_id = "p";
  event_type = "policy.kill_switch_triggered";
  actor_type = "user";
  actor_id = "op";
  payload = [];
  trace_id = "";
  phase = "";
  model_provider = "";
  model_name = "";
  cost_usd = 0;
  latency_ms = 0;
}

abbrev with_events : List (Event ℕ) → World ℕ
with_events es = record {
  memory = record { mem_events = ("p", es) ∷ []; last_event = [] };
  rows = [];
}

abbrev nothing : World ℕ
nothing = record { memory = record { mem_events = []; last_event = [] }; rows = [] }

abbrev calls : List (Call plain_hash id_of iso)
calls =
    record { now = 1; new_id = "a"; event = new_kill }
    ∷ record { now = 2; new_id = "b"; event = new_kill }
    ∷ []

verify_chain-append_example :
    verify_chain plain_hash id_of (append_all plain_hash id_of iso nothing calls) "p" ≡ none
verify_chain-append_example = verify_chain-append plain_hash id_of iso nothing calls "p" refl refl

chain_test :
    verify_chain plain_hash id_of (with_events (event_named "a" "phase.started" ∷ [])) "p" ≡ some 0
unfolding verify_chain compute_hash get v.Events.Log.break_from
chain_test = refl

abbrev hashed : Event ℕ
hashed = record (event_named "a" "phase.started") { event_hash = "|a" }

verify_chain-same_example : SameLog plain_hash id_of (hashed ∷ []) (hashed ∷ [])
unfolding verify_chain compute_hash get v.Events.Log.break_from
verify_chain-same_example =
    verify_chain-same plain_hash id_of (with_events (hashed ∷ [])) (with_events (hashed ∷ [])) "p"
      refl ((λ e. (refl, refl)), tt) refl refl refl

abbrev relinked : World ℕ
relinked = record {
  memory = record {
    mem_events = [];
    last_event = ("p", record { event_id = "z"; event_hash = "h" }) ∷ [];
  };
  rows = [];
}

fallback_breaks_example :
    verify_chain plain_hash id_of
      (append plain_hash id_of iso absent faulty 3 "c" relinked new_kill).0
      "p"
    ≡ some 0
unfolding get compute_hash
fallback_breaks_example =
    fallback_breaks plain_hash id_of iso absent 3 "c" relinked new_kill
      (record { event_id = "z"; event_hash = "h" }) (ground (arith, eq_iff "p" ""))
      (ground (arith, eq_iff "policy.kill_switch_triggered" "")) refl refl
      (ground (arith, eq_iff "h|c" "|c"))

abbrev log : List (Event ℕ)
log = event_named "a" "phase.started" ∷ event_named "b" "policy.kill_switch_triggered" ∷ []

state_at-kill_iff_example :
    ((state_at absent (with_events log) "p" "b" "" 500).projection.kill_switch_active ≡ some true)
    ↔ (any kills (cut "b" "" (list_events absent (with_events log) "p" "" "" 500)) ≡ true)
state_at-kill_iff_example = state_at-kill_iff absent (with_events log) "p" "b" "" 500
