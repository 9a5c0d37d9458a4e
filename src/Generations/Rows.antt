-- ===== src/Generations/Rows.antt =====
-- mas/state_coherence.py: what the statements on generations do to the rows.
use v.Prelude.{
  String, Bool, true, false, Option, none, some, List, [], ◌∷◌, ◌++◌, ◌≡◌, refl, ◌||◌, any, str_eq,
  arith, eq_iff, All, Bool-cases, inl, inr, if◌then◌else◌,
}
use v.Generations.Tables.{
  is_candidate, Generation, CurrentBinding, at_scope, binding_of, upsert, find_generation, replace,
  has_shape, guard_current_binding,
}

module _ {F : Type 0} where
  -- A row where there is one before.
  abbrev pub instead : Option (Generation F) → Generation F → Option (Generation F)
  instead none g = none
  instead (some r) g = some g

  pub find-replace :
      (rows : List (Generation F)) (g : Generation F) (id : String)
      → find_generation (replace rows g) id ≡ (
          if str_eq g.id id then instead (find_generation rows g.id) g else find_generation rows id)
  unfolding find_generation replace
  find-replace [] g id = ground arith
  find-replace (r ∷ rows) g id = ground (
    arith,
    eq_iff r.id g.id,
    eq_iff g.id id,
    eq_iff r.id id,
    eq_iff g.id g.id,
    find-replace rows g id,
  )

  abbrev pub or_row : Option (Generation F) → Option (Generation F) → Option (Generation F)
  or_row none o = o
  or_row (some g) o = some g

  pub find-snoc :
      (rows : List (Generation F)) (g : Generation F) (id : String)
      → find_generation (rows ++ g ∷ []) id
        ≡ or_row (find_generation rows id) (if str_eq g.id id then some g else none)
  unfolding find_generation
  find-snoc [] g id = ground arith
  find-snoc (r ∷ rows) g id = ground (arith, find-snoc rows g id)

  pub find-id :
      (rows : List (Generation F)) (id : String) (g : Generation F)
      → find_generation rows id ≡ some g
      → g.id ≡ id
  unfolding find_generation
  find-id [] id g h = ground (arith, h)
  find-id (r ∷ rows) id g h = ground (arith, h, eq_iff r.id id, find-id rows id g)

  -- A binding is to an accepted row, which no write to a candidate touches.
  pub guard-replace :
      (rows : List (Generation F)) (old new : Generation F) (b : CurrentBinding)
      → find_generation rows new.id ≡ some old
      → is_candidate old.lifecycle_status ≡ true
      → guard_current_binding rows b ≡ true
      → guard_current_binding (replace rows new) b ≡ true
  unfolding guard_current_binding
  guard-replace rows old new b f c h =
      ground (arith, f, c, h, eq_iff new.id b.generation_id, find-replace rows new b.generation_id)

  pub guard-snoc :
      (rows : List (Generation F)) (g : Generation F) (b : CurrentBinding)
      → guard_current_binding rows b ≡ true
      → guard_current_binding (rows ++ g ∷ []) b ≡ true
  unfolding guard_current_binding
  guard-snoc rows g b h = ground (arith, h, find-snoc rows g b.generation_id)

  pub shape-replace :
      (rows : List (Generation F)) (g : Generation F)
      → All (λ r. has_shape r ≡ true) rows
      → has_shape g ≡ true
      → All (λ r. has_shape r ≡ true) (replace rows g)
  unfolding replace
  shape-replace [] g h s = tt
  shape-replace (r ∷ rows) g h s = elim (Bool-cases (str_eq r.id g.id)) [
    | inl e ↦ rw e (s, h.1)
    | inr e ↦ rw e (h.0, shape-replace rows g h.1 s)
  ]

  pub shape-snoc :
      (rows : List (Generation F)) (g : Generation F)
      → All (λ r. has_shape r ≡ true) rows
      → has_shape g ≡ true
      → All (λ r. has_shape r ≡ true) (rows ++ g ∷ [])
  shape-snoc [] g h s = (s, tt)
  shape-snoc (r ∷ rows) g h s = (h.0, shape-snoc rows g h.1 s)

-- No project and decision has two bindings.
unfoldable pub Single : List CurrentBinding → Type 0
Single [] = Unit
Single (b ∷ rest) = (any (at_scope b.project_id b.decision_id) rest ≡ false) × Single rest

at_scope-same :
    (a b : CurrentBinding) (project decision : String)
    → at_scope b.project_id b.decision_id a ≡ true
    → at_scope project decision a ≡ at_scope project decision b
at_scope-same a b project decision h =
    ground (arith, h, eq_iff a.project_id b.project_id, eq_iff a.decision_id b.decision_id)

any-upsert :
    (bs : List CurrentBinding) (b : CurrentBinding) (project decision : String)
    → any (at_scope project decision) (upsert bs b)
      ≡ (at_scope project decision b || any (at_scope project decision) bs)
unfolding upsert
any-upsert [] b project decision = refl
any-upsert (a ∷ bs) b project decision = elim (Bool-cases (at_scope b.project_id b.decision_id a)) [
  | inl e ↦
      rw (e, at_scope-same a b project decision e)
        (twice (at_scope project decision b) (any (at_scope project decision) bs))
  | inr e ↦
      rw (e, any-upsert bs b project decision)
        (turned (at_scope project decision a) (at_scope project decision b)
          (any (at_scope project decision) bs))
]
  where
    twice : (x y : Bool) → (x || y) ≡ (x || (x || y))
    twice x y = ground arith

    turned : (x y z : Bool) → (x || (y || z)) ≡ (y || (x || z))
    turned x y z = ground arith

pub Single-upsert :
    (bs : List CurrentBinding) (b : CurrentBinding) → Single bs → Single (upsert bs b)
unfolding Single upsert
Single-upsert [] b h = (refl, tt)
Single-upsert (a ∷ bs) b h = elim (Bool-cases (at_scope b.project_id b.decision_id a)) [
  | inl e ↦ rw e (
    ground (arith, e, h.0, eq_iff a.project_id b.project_id, eq_iff a.decision_id b.decision_id),
    h.1,
  )
  | inr e ↦ rw e (
    ground (
      arith,
      e,
      h.0,
      eq_iff b.project_id a.project_id,
      eq_iff b.decision_id a.decision_id,
      eq_iff a.project_id b.project_id,
      eq_iff a.decision_id b.decision_id,
      any-upsert bs b a.project_id a.decision_id,
    ),
    Single-upsert bs b h.1,
  )
]

pub All-upsert :
    (P : CurrentBinding → Type 0) (bs : List CurrentBinding) (b : CurrentBinding)
    → All P bs
    → P b
    → All P (upsert bs b)
unfolding upsert
All-upsert P [] b h p = (p, tt)
All-upsert P (a ∷ bs) b h p = elim (Bool-cases (at_scope b.project_id b.decision_id a)) [
  | inl e ↦ rw e (p, h.1)
  | inr e ↦ rw e (h.0, All-upsert P bs b h.1 p)
]

-- The current generation of every scope after an upsert.
pub binding_of-upsert :
    (bs : List CurrentBinding) (b : CurrentBinding) (project decision : String)
    → binding_of (upsert bs b) project decision ≡ (
        if at_scope project decision b
        then some b.generation_id
        else binding_of bs project decision)
unfolding binding_of upsert
binding_of-upsert [] b project decision = ground arith
binding_of-upsert (a ∷ bs) b project decision =
    elim (Bool-cases (at_scope b.project_id b.decision_id a)) [
      | inl e ↦ rw e (ground (arith, at_scope-same a b project decision e))
      | inr e ↦ rw e (
          ground (
            arith,
            e,
            binding_of-upsert bs b project decision,
            eq_iff a.project_id project,
            eq_iff a.decision_id decision,
            eq_iff b.project_id project,
            eq_iff b.decision_id decision,
            eq_iff a.project_id b.project_id,
            eq_iff a.decision_id b.decision_id,
          ))
    ]
