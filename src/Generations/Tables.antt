-- ===== src/Generations/Tables.antt =====
-- mas/state_coherence.py and mas/sql/v64_decision_state_coherence_foundation.sql: the tables
-- `analysis_generations` and `current_analysis_generations`, and the triggers that guard them. The
-- clock of the database is an argument.
use v.Prelude.{
  ℕ, String, Bool, true, false, Option, none, some, List, [], ◌∷◌, not, ◌&&◌, all, find_first,
  str_eq, if◌then◌else◌,
}
use v.Workflow.State.{Workflow, is_completed, status_of, phase_has_output}

pub data Lifecycle : Type 0 where
  candidate accepted failed aborted : Lifecycle

abbrev pub is_candidate : Lifecycle → Bool
is_candidate candidate = true
is_candidate _ = false

abbrev pub is_accepted : Lifecycle → Bool
is_accepted accepted = true
is_accepted _ = false

-- A state of the project with the phases of its type.
pub record Analysis (F : Type 0) : Type 0 where
  pub workflow : Workflow F
  pub sequence : List String

pub record Generation (F : Type 0) : Type 0 where
  pub id : String
  pub project_id : String
  pub decision_id : String
  pub snapshot_id : String
  pub workflow_fingerprint : String
  pub lifecycle_status : Lifecycle
  pub expected_base : Option String
  pub state_sha256 : String
  pub state : Analysis F
  pub validated_at : Option ℕ
  pub promoted_at : Option ℕ
  pub terminal_at : Option ℕ

pub record CurrentBinding : Type 0 where
  pub project_id : String
  pub decision_id : String
  pub generation_id : String

pub record Database (F : Type 0) : Type 0 where
  pub generations : List (Generation F)
  pub current : List CurrentBinding

-- a IS NOT DISTINCT FROM b
abbrev pub not_distinct : Option String → Option String → Bool
not_distinct none none = true
not_distinct none (some b) = false
not_distinct (some a) none = false
not_distinct (some a) (some b) = str_eq a b

abbrev pub is_null : Option ℕ → Bool
is_null none = true
is_null (some t) = false

abbrev pub at_scope : String → String → CurrentBinding → Bool
at_scope project decision b = str_eq b.project_id project && str_eq b.decision_id decision

unfoldable pub binding_of : List CurrentBinding → String → String → Option String
binding_of bindings project decision = elim (find_first (at_scope project decision) bindings) [
  | none ↦ none
  | some b ↦ some b.generation_id
]

-- INSERT ... ON CONFLICT (project_id, decision_id) DO UPDATE SET generation_id
unfoldable pub upsert : List CurrentBinding → CurrentBinding → List CurrentBinding
upsert [] b = b ∷ []
upsert (a ∷ rest) b = if at_scope b.project_id b.decision_id a then b ∷ rest else a ∷ upsert rest b

module _ {F : Type 0} where
  unfoldable pub find_generation : List (Generation F) → String → Option (Generation F)
  find_generation [] id = none
  find_generation (g ∷ rest) id = if str_eq g.id id then some g else find_generation rest id

  -- UPDATE analysis_generations ... WHERE id = g.id
  unfoldable pub replace : List (Generation F) → Generation F → List (Generation F)
  replace [] g = []
  replace (r ∷ rest) g = if str_eq r.id g.id then g ∷ rest else r ∷ replace rest g

  -- ck_ag_terminal_shape
  unfoldable pub has_shape : Generation F → Bool
  has_shape g = elim g.lifecycle_status [
    | candidate ↦ is_null g.promoted_at && is_null g.terminal_at
    | accepted ↦
        not (is_null g.validated_at) && (not (is_null g.promoted_at) && is_null g.terminal_at)
    | failed ↦ is_null g.promoted_at && not (is_null g.terminal_at)
    | aborted ↦ is_null g.promoted_at && not (is_null g.terminal_at)
  ]

  -- `decision_state_guard_generation_mutation` for an UPDATE that leaves the identity and the content
  -- alone, whose `validated_at` is `same` or not.
  unfoldable pub guard_generation_mutation : Generation F → Generation F → Bool → Bool
  guard_generation_mutation old new same =
      is_candidate old.lifecycle_status && elim new.lifecycle_status [
        | candidate ↦
            is_null old.validated_at
            && (not (is_null new.validated_at)
                && (is_null new.promoted_at && is_null new.terminal_at))
        | accepted ↦
            not (is_null old.validated_at)
            && (same && (not (is_null new.promoted_at) && is_null new.terminal_at))
        | failed ↦ is_null new.promoted_at && not (is_null new.terminal_at)
        | aborted ↦ is_null new.promoted_at && not (is_null new.terminal_at)
      ]

  -- A row that a statement changes; none is the exception of a trigger or of the table's check.
  unfoldable pub update_generation :
      List (Generation F) → Generation F → Generation F → Bool → Option (List (Generation F))
  unfolding replace has_shape guard_generation_mutation
  update_generation rows old new same =
      if guard_generation_mutation old new same && has_shape new
      then some (replace rows new)
      else none

  -- `decision_state_guard_current_binding`
  unfoldable pub guard_current_binding : List (Generation F) → CurrentBinding → Bool
  unfolding find_generation
  guard_current_binding rows b = elim (find_generation rows b.generation_id) [
    | none ↦ false
    | some g ↦
        str_eq g.project_id b.project_id
        && (str_eq g.decision_id b.decision_id && is_accepted g.lifecycle_status)
  ]

  -- is_complete_analysis
  unfoldable pub is_complete_analysis : Analysis F → Bool
  unfolding phase_has_output
  is_complete_analysis a =
      all (λ phase. is_completed (status_of a.workflow phase) && phase_has_output a.workflow phase)
        a.sequence
