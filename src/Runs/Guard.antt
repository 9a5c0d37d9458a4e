-- ===== src/Runs/Guard.antt =====
-- mas/runtime/run_state.py: the guard of the run state that one process keeps in memory.
use v.Prelude.{
  ℕ, String, ◌≡◌, ◌≢◌, refl, true, none, some, arith, eq_iff, str_eq, Bool-cases, Option-cases, inl,
  inr,
}
use v.Prelude.Dict.{get, put, get-put, get-pop}
use v.Runs.Record.{WorkflowRunRecord, is_active, is_terminal}
use v.Runs.Memory.{
  Memory, RunUpdate, get_active_memory_run, create_memory_run, update_memory_run, updated_run,
  new_run, phase_update, guard_after,
}

-- Every run is stored under its id, and every active run is its project's guard.
pub record IsGuarded (m : Memory) : Type 0 where
  pub named : (k : String) (r : WorkflowRunRecord) → get m.runs k ≡ some r → k ≢ ""
  pub guarded :
      (k : String) (r : WorkflowRunRecord)
      → get m.runs k ≡ some r
      → is_active r.status ≡ true
      → get m.active_by_project r.project_id ≡ some k

-- Two active runs of one project are one run.
pub IsGuarded-unique :
    {m : Memory} (j k : String) (q r : WorkflowRunRecord)
    → IsGuarded m
    → get m.runs j ≡ some q
    → get m.runs k ≡ some r
    → is_active q.status ≡ true
    → is_active r.status ≡ true
    → q.project_id ≡ r.project_id
    → j ≡ k
IsGuarded-unique j k q r g e f a b p = ground (arith, g.guarded j q e a, g.guarded k r f b, p)

-- The guard finds a run that it holds.
found_active :
    (m : Memory) (k : String) (r : WorkflowRunRecord)
    → get m.active_by_project r.project_id ≡ some k
    → k ≢ ""
    → get m.runs k ≡ some r
    → is_active r.status ≡ true
    → get_active_memory_run m r.project_id ≡ some r
unfolding get_active_memory_run
found_active m k r e n f a = ground (arith, eq_iff k "")

module _ (now : ℕ) (id : String) (m : Memory) (p version : String) where
  no_other :
      IsGuarded m
      → get_active_memory_run m p ≡ none
      → (k : String) (r : WorkflowRunRecord) → get m.runs k ≡ some r
      → is_active r.status ≡ true
      → p ≢ r.project_id
  no_other g n k r e a same =
      ground (arith, found_active m k r (g.guarded k r e a) (g.named k r e) e a, n, same)

  -- Acquiring a run under a new id keeps the guard.
  pub create_memory_run-IsGuarded :
      get m.runs id ≡ none
      → id ≢ ""
      → IsGuarded m
      → IsGuarded (create_memory_run now id m p version).0
  unfolding create_memory_run
  create_memory_run-IsGuarded new ne g = elim (Option-cases (get_active_memory_run m p)) [
    | inr (r, busy) ↦ rw (busy, create_memory_run) g
    | inl free ↦
        rw (free, create_memory_run)
          (record {
            named = λ k r e. ground (
              arith,
              e,
              get-put m.runs id k (new_run now id p version),
              eq_iff id k,
              g.named k r,
              ne,
            );
            guarded = λ k r e a. elim (Bool-cases (str_eq id k)) [
              | inl same ↦ ground (
                arith,
                e,
                same,
                get-put m.runs id k (new_run now id p version),
                get-put m.active_by_project p r.project_id id,
                eq_iff id k,
                eq_iff p r.project_id,
              )
              | inr other ↦
                  let old : get m.runs k ≡ some r =
                    ground (arith, e, other, get-put m.runs id k (new_run now id p version)) in
                  ground (
                    arith,
                    get-put m.active_by_project p r.project_id id,
                    eq_iff p r.project_id,
                    no_other g free k r old a,
                    g.guarded k r old a,
                  )
            ];
          })
  ]

module _ (now : ℕ) (m : Memory) (id : String) (u : RunUpdate) (x : WorkflowRunRecord) where
  abbrev written : WorkflowRunRecord
  written = updated_run now x u

  update_found :
      get m.runs id ≡ some x
      → (update_memory_run now m id u).0 ≡ record {
        runs = put m.runs id written;
        active_by_project = guard_after written.status x id m.active_by_project;
      }
  unfolding update_memory_run
  update_found e = ground (arith, e)

  written_project : written.project_id ≡ x.project_id
  unfolding updated_run
  written_project = refl

  -- An update of an active run keeps the guard.
  pub update_memory_run-IsGuarded :
      get m.runs id ≡ some x
      → is_active x.status ≡ true
      → IsGuarded m
      → IsGuarded (update_memory_run now m id u).0
  update_memory_run-IsGuarded found active g = rw (update_found found) (record {
    named = λ k r e.
        ground
          (arith, e, get-put m.runs id k written, eq_iff id k, g.named k r, g.named id x found);
    guarded = λ k r e a. elim (Bool-cases (str_eq id k)) [
      | inl same ↦ ground (
        arith,
        e,
        a,
        same,
        written_project,
        get-put m.runs id k written,
        get-put m.active_by_project x.project_id r.project_id id,
        eq_iff id k,
        eq_iff x.project_id r.project_id,
      )
      | inr other ↦
          let old : get m.runs k ≡ some r = ground (arith, e, other, get-put m.runs id k written) in
          ground (
            arith,
            other,
            get-put m.active_by_project x.project_id r.project_id id,
            get-pop m.active_by_project x.project_id r.project_id,
            eq_iff x.project_id r.project_id,
            eq_iff id k,
            g.guarded k r old a,
            g.guarded id x found active,
          )
    ];
  })

-- A run of memory: acquisitions under new ids, and updates of active runs.
pub data Uses : Memory → Memory → Type 0 where
  here : {m : Memory} → Uses m m
  create :
      {m n : Memory} (now : ℕ) (id p version : String)
      → Uses m n
      → get n.runs id ≡ none
      → id ≢ ""
      → Uses m (create_memory_run now id n p version).0
  update :
      {m n : Memory} (now : ℕ) (id : String) (u : RunUpdate) (x : WorkflowRunRecord)
      → Uses m n
      → get n.runs id ≡ some x
      → is_active x.status ≡ true
      → Uses m (update_memory_run now n id u).0

-- From a guarded memory, acquisitions under new ids and updates of runs that are still active keep
-- every active run its project's guard.
pub Uses-IsGuarded : {m n : Memory} → IsGuarded m → Uses m n → IsGuarded n
Uses-IsGuarded g Uses.here = g
Uses-IsGuarded g (Uses.create {n = n} now id p version r e ne) =
    create_memory_run-IsGuarded now id n p version e ne (Uses-IsGuarded g r)
Uses-IsGuarded g (Uses.update {n = n} now id u x r e a) =
    update_memory_run-IsGuarded now n id u x e a (Uses-IsGuarded g r)

-- The update of a run that has ended frees the guard of its project although another run holds it:
-- the next acquisition creates a second active run.
pub late_update_frees_guard :
    (now now' : ℕ) (m : Memory) (a b id phase version : String) (x y : WorkflowRunRecord)
    → get m.runs a ≡ some x
    → get m.runs b ≡ some y
    → is_terminal x.status ≡ true
    → y.project_id ≡ x.project_id
    → a ≢ b
    → id ≢ b
    → let late = (update_memory_run now m a (phase_update phase)).0 in
      let (after, acquired) = create_memory_run now' id late x.project_id version in
      (acquired.created ≡ true) × (get after.runs b ≡ some y)
unfolding create_memory_run get_active_memory_run update_memory_run updated_run
late_update_frees_guard now now' m a b id phase version x y e f t same ne ni = ground (
  arith,
  e,
  f,
  get-pop m.active_by_project x.project_id x.project_id,
  eq_iff x.project_id x.project_id,
  get-put m.runs a b (updated_run now x (phase_update phase)),
  get-put (put m.runs a (updated_run now x (phase_update phase))) id b
      (new_run now' id x.project_id version),
  eq_iff a b,
  eq_iff id b,
)
