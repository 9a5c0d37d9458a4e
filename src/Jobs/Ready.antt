-- ===== src/Jobs/Ready.antt =====
-- mas/runtime/work_queue.py: which rows a worker may be given, by the fields of the rows.
use v.Prelude.{
  ℕ, suc, ◌≤◌, ◌<◌, String, ◌&&◌, str_eq, eq_iff, subst, sym, ◌≡◌, ◌⊎◌, refl, true, false, some, [],
  ◌∷◌, any, arith, Bool-cases, inl, inr,
}
use mathlib.Core.List.{Memᴰ}
use v.Runs.Record.{RunStatus, WorkflowRunRecord, is_active}
use v.Runs.Table.{Table}
use v.Jobs.Queue.{WorkflowJobRecord, Jobs, queued, running, is_claimable, is_before}
use v.Jobs.Earliest.{IsFirst}

-- The conditions of the claim by the fields: the job is queued, due, has attempts left, and a run
-- with its id is queued or running.
pub record IsReady (now : ℕ) (runs : Table) (job : WorkflowJobRecord) : Type 0 where
  pub waits : job.status ≡ queued
  pub is_due : job.available_at ≤ now
  pub attempts_left : job.attempt_count < job.max_attempts
  pub run_goes_on :
      (r : WorkflowRunRecord) × Memᴰ r runs
      × (r.run_id ≡ job.run_id)
      × ((r.status ≡ RunStatus.queued) ⊎ (r.status ≡ RunStatus.running))

-- The first job is due before the second, or as early and not created after it.
abbrev pub Precedes : WorkflowJobRecord → WorkflowJobRecord → Type 0
Precedes j k =
    (j.available_at < k.available_at)
    ⊎ ((j.available_at ≡ k.available_at) × (j.created_at ≤ k.created_at))

-- The row `given` after the claim of `job`: running since now, one more attempt, no error, and the
-- rest as it was.
pub record IsStarted (now : ℕ) (job given : WorkflowJobRecord) : Type 0 where
  pub runs_now : given.status ≡ running
  pub one_more : given.attempt_count ≡ suc job.attempt_count
  pub since : given.started_at ≡ some now
  pub no_error : given.error_summary ≡ ""
  pub same_ids :
      (given.job_id ≡ job.job_id)
      × (given.run_id ≡ job.run_id)
      × (given.project_id ≡ job.project_id)
  pub same_rest :
      (given.max_attempts ≡ job.max_attempts)
      × (given.created_at ≡ job.created_at)
      × (given.available_at ≡ job.available_at)
      × (given.finished_at ≡ job.finished_at)

any-found :
    (id : String) (runs : Table)
    → any (λ r. str_eq r.run_id id && is_active r.status) runs ≡ true
    → (r : WorkflowRunRecord) × Memᴰ r runs
      × (r.run_id ≡ id)
      × ((r.status ≡ RunStatus.queued) ⊎ (r.status ≡ RunStatus.running))
any-found id [] h = cc
any-found id (r ∷ rs) h = elim (Bool-cases (str_eq r.run_id id && is_active r.status)) [
  | inl here ↦ (r, Memᴰ.head refl, ground (arith, here, eq_iff r.run_id id), ground (arith, here))
  | inr there ↦
      let (q, m, e, a) = any-found id rs (ground (arith, h, there)) in (q, Memᴰ.tail m, e, a)
]

found-any :
    (id : String) (runs : Table) (r : WorkflowRunRecord)
    → Memᴰ r runs
    → r.run_id ≡ id
    → (r.status ≡ RunStatus.queued) ⊎ (r.status ≡ RunStatus.running)
    → any (λ q. str_eq q.run_id id && is_active q.status) runs ≡ true
found-any id [] r m i a = elim m [ ]
found-any id (q ∷ qs) r (Memᴰ.head e) i a = ground (arith, e, i, a, eq_iff q.run_id id)
found-any id (q ∷ qs) r (Memᴰ.tail m) i a = ground (arith, found-any id qs r m i a)

pub claimable-IsReady :
    (now : ℕ) (runs : Table) (j : WorkflowJobRecord)
    → is_claimable now runs j ≡ true
    → IsReady now runs j
claimable-IsReady now runs j h = record {
  waits = ground (arith, h);
  is_due = ground (arith, h);
  attempts_left = ground (arith, h);
  run_goes_on = any-found j.run_id runs (ground (arith, h));
}

pub IsReady-claimable :
    (now : ℕ) (runs : Table) (j : WorkflowJobRecord)
    → IsReady now runs j
    → is_claimable now runs j ≡ true
IsReady-claimable now runs j h =
    let (r, m, e, a) = h.run_goes_on in
    let going = found-any j.run_id runs r m e a in
    ground (arith, going, h.waits, h.is_due, h.attempts_left)

pub first-Precedes :
    (now : ℕ) (runs : Table) (j k : WorkflowJobRecord) (jobs : Jobs)
    → IsFirst (is_claimable now runs) j jobs
    → Memᴰ k jobs
    → IsReady now runs k
    → Precedes j k
first-Precedes now runs j k [] f m r = elim m [ ]
first-Precedes now runs j k (x ∷ xs) f (Memᴰ.head e) r = not_before k (
    subst (λ y. is_claimable now runs y ≡ true → is_before y j ≡ false) (sym e) f.0
      (IsReady-claimable now runs k r))
  where
    not_before : (k : WorkflowJobRecord) → is_before k j ≡ false → Precedes j k
    not_before k b = ground (arith, b)
first-Precedes now runs j k (x ∷ xs) f (Memᴰ.tail m) r = first-Precedes now runs j k xs f.1 m r
