-- ===== src/Jobs/Claims.antt =====
-- mas/runtime/work_queue.py: which job a worker is given.
use v.Prelude.{
  ℕ, String, str_eq, eq_iff, subst, sym, ◌≡◌, ◌≢◌, ◌⊎◌, ◌↔◌, refl, ap, true, false, none, some, [],
  ◌∷◌, any, select, arith, Bool-cases, Option-cases, inl, inr,
}
use mathlib.Core.List.{Memᴰ}
use v.Runs.Table.{Table}
use v.Jobs.Queue.{
  WorkflowJobRecord, Jobs, update_job_rows, is_claimable, earliest, claimed, next_job,
  claim_next_workflow_job,
}
use v.Jobs.Earliest.{earliest-none, earliest-select}
use v.Jobs.Ready.{
  IsStarted, IsReady, Precedes, claimable-IsReady, first-Precedes, IsReady-claimable,
}

written-in :
    (id : String) (f : WorkflowJobRecord → WorkflowJobRecord) (j : WorkflowJobRecord) (jobs : Jobs)
    → Memᴰ j jobs
    → j.job_id ≡ id
    → Memᴰ (f j) (update_job_rows id f jobs)
written-in id f j [] m i = elim m [ ]
written-in id f j (x ∷ xs) (Memᴰ.head e) i =
    Memᴰ.head (ground (arith, e, i, eq_iff x.job_id id, ap f e))
written-in id f j (x ∷ xs) (Memᴰ.tail m) i = Memᴰ.tail (written-in id f j xs m i)

others-kept :
    (id : String) (f : WorkflowJobRecord → WorkflowJobRecord) (k : WorkflowJobRecord) (jobs : Jobs)
    → k.job_id ≢ id
    → Memᴰ k jobs
    → Memᴰ k (update_job_rows id f jobs)
others-kept id f k [] n m = elim m [ ]
others-kept id f k (x ∷ xs) n (Memᴰ.head e) = Memᴰ.head (ground (arith, e, n, eq_iff x.job_id id))
others-kept id f k (x ∷ xs) n (Memᴰ.tail m) = Memᴰ.tail (others-kept id f k xs n m)

claimed-IsStarted :
    (now : ℕ) (j given : WorkflowJobRecord) → given ≡ claimed now j → IsStarted now j given
claimed-IsStarted now j given e = record {
  runs_now = ground (arith, e);
  one_more = ground (arith, e);
  since = ground (arith, e);
  no_error = ground (arith, e);
  same_ids = ground (arith, e);
  same_rest = ground (arith, e);
}

others-old :
    (now : ℕ) (id : String) (k : WorkflowJobRecord) (jobs : Jobs)
    → k.job_id ≢ id
    → Memᴰ k (update_job_rows id (claimed now) jobs)
    → Memᴰ k jobs
others-old now id k [] n m = elim m [ ]
others-old now id k (x ∷ xs) n (Memᴰ.head e) = elim (Bool-cases (str_eq x.job_id id)) [
  | inl same ↦ absurd (n (ground (arith, e, same, eq_iff x.job_id id)))
  | inr other ↦ Memᴰ.head (ground (arith, e, other))
]
others-old now id k (x ∷ xs) n (Memᴰ.tail m) = Memᴰ.tail (others-old now id k xs n m)

none-IsReady :
    (now : ℕ) (runs : Table) (jobs : Jobs)
    → any (is_claimable now runs) jobs ≡ false
    → (k : WorkflowJobRecord) → Memᴰ k jobs
    → ¬ IsReady now runs k
none-IsReady now runs [] h k m r = elim m [ ]
none-IsReady now runs (x ∷ xs) h k (Memᴰ.head e) r =
    let c = subst (λ y. is_claimable now runs y ≡ true) e (IsReady-claimable now runs k r) in
    ground (arith, c, h)
none-IsReady now runs (x ∷ xs) h k (Memᴰ.tail m) r =
    none-IsReady now runs xs (ground (arith, h)) k m r

-- What a claim that gives out `given` does to the rows `before`.
pub record IsClaim (now : ℕ) (runs : Table) (before after : Jobs) (given : WorkflowJobRecord)
    : Type 0 where
  pub job : WorkflowJobRecord
  pub stood : Memᴰ job before
  pub was_ready : IsReady now runs job
  pub was_first : (k : WorkflowJobRecord) → Memᴰ k before → IsReady now runs k → Precedes job k
  pub started : IsStarted now job given
  pub is_written : Memᴰ given after
  pub others_stand :
      (k : WorkflowJobRecord) → k.job_id ≢ job.job_id → (Memᴰ k before) ↔ (Memᴰ k after)

given-IsClaim :
    (now : ℕ) (runs : Table) (jobs : Jobs) (j : WorkflowJobRecord)
    → earliest none (select (is_claimable now runs) jobs) ≡ some j
    → IsClaim now runs jobs (update_job_rows j.job_id (claimed now) jobs) (claimed now j)
given-IsClaim now runs jobs j found =
    let (a, d, m) = earliest-select (is_claimable now runs) jobs j found in
    record {
      job = j;
      stood = m;
      was_ready = claimable-IsReady now runs j a;
      was_first = λ k n r. first-Precedes now runs j k jobs d n r;
      started = claimed-IsStarted now j (claimed now j) refl;
      is_written = written-in j.job_id (claimed now) j jobs m refl;
      others_stand =
          λ k n. (others-kept j.job_id (claimed now) k jobs n, others-old now j.job_id k jobs n);
    }

-- A claim gives out no job and changes no row if no row is ready, that is, queued, due, with attempts
-- left and with a run that is queued or running. Otherwise it gives out a ready row that precedes
-- every ready row, by when it is due and then by when it was created: it returns that row, and leaves
-- it in the table, as running since now with exactly one more attempt, and the rows with another id
-- are the same before and after.
pub claim_next_lem :
    (now : ℕ) (runs : Table) (jobs : Jobs)
    → (((claim_next_workflow_job now runs jobs).1 ≡ none)
        × ((claim_next_workflow_job now runs jobs).0 ≡ jobs)
        × ((k : WorkflowJobRecord) → Memᴰ k jobs → ¬ IsReady now runs k))
      ⊎ ((given : WorkflowJobRecord) × ((claim_next_workflow_job now runs jobs).1 ≡ some given)
          × IsClaim now runs jobs (claim_next_workflow_job now runs jobs).0 given)
unfolding claim_next_workflow_job next_job
claim_next_lem now runs jobs =
    elim (Option-cases (earliest none (select (is_claimable now runs) jobs))) [
      | inl none_left ↦ inl (
        ground (arith, none_left),
        ground (arith, none_left),
        none-IsReady now runs jobs (earliest-none (is_claimable now runs) jobs none_left),
      )
      | inr (j, found) ↦
          let t : (claim_next_workflow_job now runs jobs).0
              ≡ update_job_rows j.job_id (claimed now) jobs =
            ground (arith, found) in
          inr (
            claimed now j,
            ground (arith, found),
            subst (λ rows. IsClaim now runs jobs rows (claimed now j)) (sym t)
                (given-IsClaim now runs jobs j found),
          )
    ]
