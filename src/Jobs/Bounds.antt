-- ===== src/Jobs/Bounds.antt =====
-- mas/runtime/work_queue.py: what every operation of the queue keeps.
use v.Prelude.{
  ℕ, ◌≤◌, String, ◌≡◌, ◌≢◌, refl, sym, true, false, none, some, [], ◌∷◌, any, All, arith, eq_iff,
  str_eq, Bool-cases, Option-cases, inl, inr, select,
}
use v.Runs.Record.{Setting, blank, malformed, number}
use v.Prelude.Int.{pos, negsuc}
use v.Runs.Table.{Table}
use v.Jobs.Queue.{
  JobStatus, succeeded, failed, WorkflowJobRecord, WorkflowJobEnqueue, Jobs, normalize_max_attempts,
  is_active, works_on, new_job, enqueue_workflow_job, is_claimable, earliest, claimed, next_job,
  claim_next_workflow_job, mark_job_succeeded, mark_job_failed, finished_job,
}
use mathlib.Core.List.{Memᴰ}
use v.Jobs.Earliest.{earliest-select}
use v.Jobs.Writes.{
  ids_unique, IsQueue, any-append, ids-append, index-append, attempts-append, Careful,
  update-IsQueue,
}

-- A job may always be tried once.
normalize_max_attempts_pos : (s : Setting) → 1 ≤ normalize_max_attempts s
unfolding normalize_max_attempts
normalize_max_attempts_pos blank = omega arith
normalize_max_attempts_pos malformed = omega arith
normalize_max_attempts_pos (number (pos n)) = omega arith
normalize_max_attempts_pos (number (negsuc n)) = omega arith

-- Enqueueing a job under a new id keeps the queue.
pub enqueue-IsQueue :
    (now : ℕ) (id : String) (jobs : Jobs) (run project : String) (attempts : Setting)
    → any (λ j. str_eq j.job_id id) jobs ≡ false
    → IsQueue jobs
    → IsQueue (enqueue_workflow_job now id jobs run project attempts).0
unfolding enqueue_workflow_job
enqueue-IsQueue now id jobs run project attempts new q =
    elim (Bool-cases (any (works_on run) jobs)) [
      | inl busy ↦ ground (arith, q, busy)
      | inr free ↦
          let job : WorkflowJobRecord =
            new_job now id run project (normalize_max_attempts attempts) in
          ground (
            arith,
            free,
            ids-append jobs job q.ids new,
            index-append jobs job q.index free,
            attempts-append jobs job q.attempts,
          )
    ]

ids_of_mem :
    (k : String) (j : WorkflowJobRecord) (jobs : Jobs)
    → Memᴰ j jobs
    → any (λ x. str_eq x.job_id k) jobs ≡ false
    → j.job_id ≢ k
ids_of_mem k j [] m h p = elim m [ ]
ids_of_mem k j (x ∷ jobs) (Memᴰ.head e) h p = ground (arith, e, p, h, eq_iff x.job_id k)
ids_of_mem k j (x ∷ jobs) (Memᴰ.tail m) h p = ids_of_mem k j jobs m (ground (arith, h)) p

absent_row :
    (j : WorkflowJobRecord) (i : String) (jobs : Jobs)
    → any (λ x. str_eq x.job_id i) jobs ≡ false
    → All (λ k. k.job_id ≡ i → k ≡ j) jobs
absent_row j i [] h = tt
absent_row j i (x ∷ jobs) h =
    (λ p. ground (arith, h, p, eq_iff x.job_id i), absent_row j i jobs (ground (arith, h)))

same_row :
    (j : WorkflowJobRecord) (jobs : Jobs)
    → Memᴰ j jobs
    → ids_unique jobs ≡ true
    → All (λ k. k.job_id ≡ j.job_id → k ≡ j) jobs
same_row j [] m u = elim m [ ]
same_row j (x ∷ jobs) (Memᴰ.head e) u =
    (λ p. sym e, absent_row j j.job_id jobs (ground (arith, e, u)))
same_row j (x ∷ jobs) (Memᴰ.tail m) u = (
  λ p. absurd (ids_of_mem x.job_id j jobs m (ground (arith, u)) (sym p)),
  same_row j jobs m (ground (arith, u)),
)

claimed-Careful :
    (now : ℕ) (runs : Table) (j : WorkflowJobRecord) (jobs : Jobs)
    → is_claimable now runs j ≡ true
    → All (λ k. k.job_id ≡ j.job_id → k ≡ j) jobs
    → Careful j.job_id (claimed now) (λ k. (refl, refl)) jobs
claimed-Careful now runs j [] c h = tt
claimed-Careful now runs j (k ∷ jobs) c h = (
  λ p. (λ a. ground (arith, h.0 p, c), λ l. ground (arith, h.0 p, c)),
  claimed-Careful now runs j jobs c h.1,
)

-- Claiming a job keeps the queue.
pub claim-IsQueue :
    (now : ℕ) (runs : Table) (jobs : Jobs)
    → IsQueue jobs
    → IsQueue (claim_next_workflow_job now runs jobs).0
unfolding claim_next_workflow_job next_job
claim-IsQueue now runs jobs q =
    elim (Option-cases (earliest none (select (is_claimable now runs) jobs))) [
      | inl none_left ↦ ground (arith, q, none_left)
      | inr (j, found) ↦
          let (a, d, m) = earliest-select (is_claimable now runs) jobs j found in
          ground (
            arith,
            found,
            update-IsQueue j.job_id (claimed now) (λ k. (refl, refl)) jobs
                (claimed-Careful now runs j jobs a (same_row j jobs m q.ids)) q,
          )
    ]

finished-Careful :
    (now : ℕ) (id : String) (status : JobStatus) (summary : String) (jobs : Jobs)
    → is_active status ≡ false
    → Careful id (finished_job now status summary) (λ k. (refl, refl)) jobs
finished-Careful now id status summary [] e = tt
finished-Careful now id status summary (k ∷ jobs) e =
    (λ p. (λ a. ground (arith, a, e), λ l. l), finished-Careful now id status summary jobs e)

-- Marking a job as succeeded or failed keeps the queue.
pub finish-IsQueue :
    (now : ℕ) (id summary : String) (jobs : Jobs)
    → IsQueue jobs
    → IsQueue (mark_job_succeeded now jobs id).0 × IsQueue (mark_job_failed now jobs id summary).0
unfolding mark_job_succeeded mark_job_failed
finish-IsQueue now id summary jobs q = (
  update-IsQueue id (finished_job now succeeded "") (λ k. (refl, refl)) jobs
      (finished-Careful now id succeeded "" jobs refl) q,
  update-IsQueue id (finished_job now failed summary) (λ k. (refl, refl)) jobs
      (finished-Careful now id failed summary jobs refl) q,
)

-- What happens to a queue: a job is enqueued under a new id, claimed, or marked; the runs and the
-- clock are any.
pub data Served (jobs : Jobs) : Jobs → Type 0 where
  here : Served jobs jobs
  enqueued :
      {now_jobs : Jobs} (now : ℕ) (id run project : String) (attempts : Setting)
      → Served jobs now_jobs
      → any (λ j. str_eq j.job_id id) now_jobs ≡ false
      → Served jobs (enqueue_workflow_job now id now_jobs run project attempts).0
  given :
      {now_jobs : Jobs} (now : ℕ) (runs : Table)
      → Served jobs now_jobs
      → Served jobs (claim_next_workflow_job now runs now_jobs).0
  done :
      {now_jobs : Jobs} (now : ℕ) (id : String)
      → Served jobs now_jobs
      → Served jobs (mark_job_succeeded now now_jobs id).0
  gave_up :
      {now_jobs : Jobs} (now : ℕ) (id summary : String)
      → Served jobs now_jobs
      → Served jobs (mark_job_failed now now_jobs id summary).0

-- After any operations on a queue whose job ids are distinct, with at most one active job for each
-- run and no job tried more often than its maximum, all three hold again.
pub Served-IsQueue : {jobs after : Jobs} → IsQueue jobs → Served jobs after → IsQueue after
Served-IsQueue q Served.here = q
Served-IsQueue q (Served.enqueued {now_jobs} now id run project attempts s e) =
    enqueue-IsQueue now id now_jobs run project attempts e (Served-IsQueue q s)
Served-IsQueue q (Served.given {now_jobs} now runs s) =
    claim-IsQueue now runs now_jobs (Served-IsQueue q s)
Served-IsQueue q (Served.done {now_jobs} now id s) =
    (finish-IsQueue now id "" now_jobs (Served-IsQueue q s)).0
Served-IsQueue q (Served.gave_up {now_jobs} now id summary s) =
    (finish-IsQueue now id summary now_jobs (Served-IsQueue q s)).1

-- Enqueueing twice: the second call for a run changes nothing and returns no new job.
pub enqueue_twice :
    (now now' : ℕ) (id id' : String) (jobs : Jobs) (run project project' : String)
    (attempts attempts' : Setting)
    → let first = enqueue_workflow_job now id jobs run project attempts in
      let second = enqueue_workflow_job now' id' first.0 run project' attempts' in
      (second.0 ≡ first.0) × ((e : WorkflowJobEnqueue) → second.1 ≡ some e → e.created ≡ false)
unfolding enqueue_workflow_job
enqueue_twice now now' id id' jobs run project project' attempts attempts' =
    let job : WorkflowJobRecord = new_job now id run project (normalize_max_attempts attempts) in
    elim (Bool-cases (any (works_on run) jobs)) [
      | inl busy ↦ (ground (arith, busy), λ e h. ground (arith, busy, h))
      | inr free ↦ (
        ground (arith, free, any-append (works_on run) jobs job, eq_iff run run),
        λ e h. ground (arith, free, h, any-append (works_on run) jobs job, eq_iff run run),
      )
    ]
