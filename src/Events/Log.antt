-- ===== src/Events/Log.antt =====
-- mas/decision_events.py: appending to the log, reading it and verifying its chain of hashes. A
-- process has two dicts, `_mem_events` and `_last_event`; the table `decision_events` is the list
-- of its rows. `Reach` is what a call finds of the database. What the driver and JSON give back of
-- a row is what was written. `new_id` is a new UUID and `now` the clock, in microseconds, whose
-- `isoformat` is the argument `iso`.
use v.Prelude.{
  ℕ, zero, suc, String, Bool, ◌||◌, Option, none, some, List, [], ◌∷◌, ◌++◌, select, str_eq, leb,
  if◌then◌else◌,
}
use v.Prelude.Dict.{Dict, get, put}
use v.Events.Event.{Value, Event, Body, compute_hash}

-- No pool, a pool whose statements fail, or a working one.
pub data Reach : Type 0 where
  absent faulty ready : Reach

pub record Link : Type 0 where
  pub event_id : String
  pub event_hash : String

pub record Memory (F : Type 0) : Type 0 where
  pub mem_events : Dict (List (Event F))
  pub last_event : Dict Link

-- A row with the timestamp of its `event_time`; the order of insertion is that of `created_at`.
pub record Row (F : Type 0) : Type 0 where
  pub at : ℕ
  pub event : Event F

pub record World (F : Type 0) : Type 0 where
  pub memory : Memory F
  pub rows : List (Row F)

-- The arguments of `append`.
pub record NewEvent (F : Type 0) : Type 0 where
  pub project_id : String
  pub event_type : String
  pub actor_type : String
  pub actor_id : String
  pub payload : Dict Value
  pub trace_id : String
  pub phase : String
  pub model_provider : String
  pub model_name : String
  pub cost_usd : F
  pub latency_ms : F

-- LIMIT n, or a slice up to n
abbrev pub take : {A : Type 0} → ℕ → List A → List A
take zero xs = []
take (suc n) [] = []
take (suc n) (x ∷ xs) = x ∷ take n xs

abbrev pub prev_hash_of : Option Link → String
prev_hash_of none = ""
prev_hash_of (some l) = l.event_hash

abbrev pub prev_id_of : Option Link → Option String
prev_id_of none = none
prev_id_of (some l) = some l.event_id

abbrev pub or_system : String → String
or_system t = if str_eq t "" then "system" else t

-- A filter that is None or an empty text is none.
abbrev pub wanted : String → String → Bool
wanted filter t = str_eq filter "" || str_eq t filter

module _ {F : Type 0} where
  abbrev pub events_of : Memory F → String → List (Event F)
  events_of m project = elim (get m.mem_events project) [ none ↦ [] | some es ↦ es ]

  abbrev pub link_of : Event F → Link
  link_of e = record { event_id = e.event_id; event_hash = e.event_hash }

  -- events[-1]
  abbrev pub last_link : List (Event F) → Option Link
  last_link [] = none
  last_link (e ∷ []) = some (link_of e)
  last_link (e ∷ f ∷ es) = last_link (f ∷ es)

  -- ORDER BY event_time DESC, created_at DESC LIMIT 1
  abbrev pub latest : Option (Row F) → List (Row F) → Option (Row F)
  latest best [] = best
  latest none (r ∷ rs) = latest (some r) rs
  latest (some b) (r ∷ rs) = latest (some (if leb b.at r.at then r else b)) rs

  abbrev pub rows_of : List (Row F) → String → List (Row F)
  rows_of rows project = select (λ r. str_eq r.event.project_id project) rows

  abbrev cached : Memory F → String → Option Link → Memory F
  cached m project none = m
  cached m project (some l) = record m { last_event = put m.last_event project l }

  abbrev row_link : Option (Row F) → Option Link
  row_link none = none
  row_link (some r) = some (link_of r.event)

  abbrev looked_up : Reach → World F → String → Memory F × Option Link
  looked_up absent w project = (w.memory, last_link (events_of w.memory project))
  looked_up faulty w project = (w.memory, none)
  looked_up ready w project =
      let found = row_link (latest none (rows_of w.rows project)) in
      (cached w.memory project found, found)

  -- `_fetch_last_event`: the memory, where a row is cached, and the link
  unfoldable pub fetch_last_event : Reach → World F → String → Memory F × Option Link
  fetch_last_event reach w project = elim (get w.memory.last_event project) [
    | some l ↦ (w.memory, some l)
    | none ↦ looked_up reach w project
  ]

  -- _mem_events.setdefault(project_id, []).append(event)
  abbrev pub remember : Memory F → Event F → Memory F
  remember m e = record m {
    mem_events = put m.mem_events e.project_id (events_of m e.project_id ++ e ∷ []);
  }

  abbrev pub linked : Memory F → Event F → Memory F
  linked m e = record m { last_event = put m.last_event e.project_id (link_of e) }

  -- The end of `append`: where the event is kept.
  abbrev pub store_event : Reach → ℕ → Memory F → List (Row F) → Event F → World F
  store_event absent now m rows e = record { memory = linked (remember m e) e; rows = rows }
  store_event faulty now m rows e = record { memory = linked (remember m e) e; rows = rows }
  store_event ready now m rows e = record {
    memory = linked m e;
    rows = rows ++ record { at = now; event = e } ∷ [];
  }

  module _ (sha256 : String → String) (dumps : Body F → String) (iso : ℕ → String) where
    abbrev pub unhashed : ℕ → String → NewEvent F → Option Link → Event F
    unhashed now new_id n prev = record {
      event_id = new_id;
      project_id = n.project_id;
      event_type = n.event_type;
      event_time = iso now;
      actor_type = or_system n.actor_type;
      actor_id = n.actor_id;
      payload = n.payload;
      trace_id = n.trace_id;
      phase = n.phase;
      model_provider = n.model_provider;
      model_name = n.model_name;
      cost_usd = n.cost_usd;
      latency_ms = n.latency_ms;
      prev_event_id = prev_id_of prev;
      event_hash = "";
    }

    unfoldable pub new_event : ℕ → String → NewEvent F → Option Link → Event F
    new_event now new_id n prev =
        let e = unhashed now new_id n prev in
        record e { event_hash = compute_hash sha256 dumps e (prev_hash_of prev) }

    -- `append`; `lookup` and `insert` are what its two steps find of the database
    unfoldable pub append :
        Reach → Reach → ℕ → String → World F → NewEvent F → World F × Option (Event F)
    unfolding new_event
    append lookup insert now new_id w n =
        if str_eq n.project_id "" || str_eq n.event_type ""
        then (w, none)
        else let (m, prev) = fetch_last_event lookup w n.project_id in
          let e = new_event now new_id n prev in (store_event insert now m w.rows e, some e)

  -- ORDER BY event_time ASC, created_at ASC
  unfoldable pub insert_row : Row F → List (Row F) → List (Row F)
  insert_row r [] = r ∷ []
  insert_row r (s ∷ rows) = if leb r.at s.at then r ∷ s ∷ rows else s ∷ insert_row r rows

  unfoldable pub sort_rows : List (Row F) → List (Row F)
  unfolding insert_row
  sort_rows [] = []
  sort_rows (r ∷ rows) = insert_row r (sort_rows rows)

  abbrev pub row_events : List (Row F) → List (Event F)
  row_events [] = []
  row_events (r ∷ rows) = r.event ∷ row_events rows

  abbrev pub filtered : String → String → List (Event F) → List (Event F)
  filtered event_type phase es =
      select (λ e. wanted phase e.phase) (select (λ e. wanted event_type e.event_type) es)

  -- `list_events`; a failing database gives the memory's events without the filters
  unfoldable pub list_events : Reach → World F → String → String → String → ℕ → List (Event F)
  unfolding sort_rows
  list_events absent w project event_type phase limit =
      take limit (filtered event_type phase (events_of w.memory project))
  list_events faulty w project event_type phase limit = take limit (events_of w.memory project)
  list_events ready w project event_type phase limit =
      take limit (filtered event_type phase (row_events (sort_rows (rows_of w.rows project))))

  module _ (sha256 : String → String) (dumps : Body F → String) where
    -- The loop of `verify_chain`: none if the chain holds, else the index where it breaks.
    unfoldable pub break_from : ℕ → String → List (Event F) → Option ℕ
    break_from i prev_hash [] = none
    break_from i prev_hash (e ∷ es) =
        let rest = break_from (suc i) e.event_hash es in
        if str_eq e.event_hash (compute_hash sha256 dumps (record e { event_hash = "" }) prev_hash)
        then rest
        else some i

    unfoldable pub verify_chain : World F → String → Option ℕ
    verify_chain w project = break_from 0 "" (events_of w.memory project)
