-- ===== src/Jobs/Writes.antt =====
-- mas/runtime/work_queue.py: what a queue is, and the writes that keep it one.
use v.Prelude.{
  ◌≤◌, String, ◌≡◌, refl, Bool, true, false, not, ◌&&◌, [], ◌∷◌, ◌++◌, any, All, arith, eq_iff,
  str_eq, if◌then◌else◌,
}
use v.Jobs.Queue.{WorkflowJobRecord, Jobs, is_active, works_on, update_job_rows}

-- The primary key: no two rows with one job_id.
abbrev pub ids_unique : Jobs → Bool
ids_unique [] = true
ids_unique (job ∷ jobs) = not (any (λ j. str_eq j.job_id job.job_id) jobs) && ids_unique jobs

-- The unique index: no two active jobs of one run.
abbrev pub index_holds : Jobs → Bool
index_holds [] = true
index_holds (job ∷ jobs) =
    not (is_active job.status && any (works_on job.run_id) jobs) && index_holds jobs

-- No job was tried more often than it may be.
abbrev pub InAttempts : Jobs → Type 0
InAttempts = All (λ job. job.attempt_count ≤ job.max_attempts)

pub record IsQueue (jobs : Jobs) : Type 0 where
  pub ids : ids_unique jobs ≡ true
  pub index : index_holds jobs ≡ true
  pub attempts : InAttempts jobs

pub any-append :
    (p : WorkflowJobRecord → Bool) (jobs : Jobs) (job : WorkflowJobRecord)
    → any p (jobs ++ job ∷ []) ≡ (if any p jobs then true else p job)
any-append p [] job = ground arith
any-append p (j ∷ jobs) job = ground (arith, any-append p jobs job)

pub ids-append :
    (jobs : Jobs) (job : WorkflowJobRecord)
    → ids_unique jobs ≡ true
    → any (λ j. str_eq j.job_id job.job_id) jobs ≡ false
    → ids_unique (jobs ++ job ∷ []) ≡ true
ids-append [] job h n = refl
ids-append (j ∷ jobs) job h n = ground (
  arith,
  ids-append jobs job,
  any-append (λ k. str_eq k.job_id j.job_id) jobs job,
  eq_iff j.job_id job.job_id,
  eq_iff job.job_id j.job_id,
)

pub index-append :
    (jobs : Jobs) (job : WorkflowJobRecord)
    → index_holds jobs ≡ true
    → any (works_on job.run_id) jobs ≡ false
    → index_holds (jobs ++ job ∷ []) ≡ true
index-append [] job h n = ground arith
index-append (j ∷ jobs) job h n = ground (
  arith,
  index-append jobs job,
  any-append (works_on j.run_id) jobs job,
  eq_iff j.run_id job.run_id,
  eq_iff job.run_id j.run_id,
)

pub attempts-append :
    (jobs : Jobs) (job : WorkflowJobRecord)
    → InAttempts jobs
    → job.attempt_count ≤ job.max_attempts
    → InAttempts (jobs ++ job ∷ [])
attempts-append [] job h n = (n, tt)
attempts-append (j ∷ jobs) job h n = (h.0, attempts-append jobs job h.1 n)

-- A write by id that keeps ids and runs, and on the row with the id activates no job that had ended
-- and does not use up its attempts.
module _ (id : String) (f : WorkflowJobRecord → WorkflowJobRecord)
    (frame : (j : WorkflowJobRecord) → ((f j).job_id ≡ j.job_id) × ((f j).run_id ≡ j.run_id)) where
  abbrev pub Careful : Jobs → Type 0
  Careful = All (λ j.
      j.job_id ≡ id
      → (is_active (f j).status ≡ true → is_active j.status ≡ true)
        × (j.attempt_count ≤ j.max_attempts → (f j).attempt_count ≤ (f j).max_attempts))

  any-id-update :
      (k : String) (jobs : Jobs)
      → any (λ j. str_eq j.job_id k) (update_job_rows id f jobs) ≡ any (λ j. str_eq j.job_id k) jobs
  any-id-update k [] = refl
  any-id-update k (j ∷ jobs) = ground (arith, frame j, any-id-update k jobs)

  any-works-update :
      (run : String) (jobs : Jobs)
      → Careful jobs
      → any (works_on run) (update_job_rows id f jobs) ≡ true
      → any (works_on run) jobs ≡ true
  any-works-update run [] c h = h
  any-works-update run (j ∷ jobs) c h =
      ground (arith, frame j, c.0, eq_iff j.job_id id, any-works-update run jobs c.1)

  update-ids :
      (jobs : Jobs) → ids_unique jobs ≡ true → ids_unique (update_job_rows id f jobs) ≡ true
  update-ids [] h = refl
  update-ids (j ∷ jobs) h = ground (arith, frame j, update-ids jobs, any-id-update j.job_id jobs)

  update-index :
      (jobs : Jobs)
      → Careful jobs
      → index_holds jobs ≡ true
      → index_holds (update_job_rows id f jobs) ≡ true
  update-index [] c h = refl
  update-index (j ∷ jobs) c h = ground (
    arith,
    frame j,
    c.0,
    eq_iff j.job_id id,
    update-index jobs c.1,
    any-works-update j.run_id jobs c.1,
  )

  update-attempts :
      (jobs : Jobs) → Careful jobs → InAttempts jobs → InAttempts (update_job_rows id f jobs)
  update-attempts [] c h = tt
  update-attempts (j ∷ jobs) c h =
      (ground (arith, c.0, eq_iff j.job_id id, h.0), update-attempts jobs c.1 h.1)

  pub update-IsQueue :
      (jobs : Jobs) → Careful jobs → IsQueue jobs → IsQueue (update_job_rows id f jobs)
  update-IsQueue jobs c q = record {
    ids = update-ids jobs q.ids;
    index = update-index jobs c q.index;
    attempts = update-attempts jobs c q.attempts;
  }
