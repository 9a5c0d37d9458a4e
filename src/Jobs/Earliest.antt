-- ===== src/Jobs/Earliest.antt =====
-- mas/runtime/work_queue.py: the first of the selected rows in the order of the claim.
use v.Prelude.{
  ◌≡◌, ◌≢◌, ◌⊎◌, refl, Bool, true, false, none, some, [], ◌∷◌, any, All, select, arith,
  if◌then◌else◌, Bool-cases, inl, inr,
}
use mathlib.Core.List.{Memᴰ}
use v.Jobs.Queue.{WorkflowJobRecord, Jobs, is_before, earliest}

module _ (q : WorkflowJobRecord → Bool) where
  -- No selected row comes before `j`.
  abbrev pub IsFirst : WorkflowJobRecord → Jobs → Type 0
  IsFirst j jobs = All (λ k. q k ≡ true → is_before k j ≡ false) jobs

  earliest-some : (b : WorkflowJobRecord) (jobs : Jobs) → earliest (some b) jobs ≢ none
  earliest-some b [] = cc
  earliest-some b (j ∷ jobs) = earliest-some (if is_before j b then j else b) jobs

  pub earliest-none : (jobs : Jobs) → earliest none (select q jobs) ≡ none → any q jobs ≡ false
  earliest-none [] h = refl
  earliest-none (j ∷ jobs) h = ground (arith, earliest-none jobs, earliest-some j (select q jobs))

  before_trans :
      (a b c : WorkflowJobRecord)
      → is_before b a ≡ false
      → is_before c b ≡ false
      → is_before c a ≡ false
  before_trans a b c h k = ground arith

  earliest-kept :
      (b : WorkflowJobRecord) (jobs : Jobs) (j : WorkflowJobRecord)
      → earliest (some b) (select q jobs) ≡ some j
      → q b ≡ true
      → (q j ≡ true) × (is_before b j ≡ false) × IsFirst j jobs × ((j ≡ b) ⊎ Memᴰ j jobs)
  earliest-kept b [] j h k = (ground arith, ground arith, tt, inl (ground arith))
  earliest-kept b (x ∷ xs) j h k = elim (Bool-cases (q x)) [
    | inr skipped ↦
        let (a, c, d, m) = earliest-kept b xs j (ground (arith, skipped)) k in
        (a, c, (λ e. cc, d), later m)
    | inl taken ↦ elim (Bool-cases (is_before x b)) [
      | inl sooner ↦
          let (a, c, d, m) = earliest-kept x xs j (ground (arith, taken, sooner)) taken in
          (a, before_trans j x b c (ground (arith, sooner)), (λ e. c, d), inr (now_or_later m))
      | inr not_sooner ↦
          let (a, c, d, m) = earliest-kept b xs j (ground (arith, taken, not_sooner)) k in
          (a, c, (λ e. before_trans j b x c not_sooner, d), later m)
    ]
  ]
    where
      later : (j ≡ b) ⊎ Memᴰ j xs → (j ≡ b) ⊎ Memᴰ j (x ∷ xs)
      later (inl e) = inl e
      later (inr m) = inr (Memᴰ.tail m)

      now_or_later : (j ≡ x) ⊎ Memᴰ j xs → Memᴰ j (x ∷ xs)
      now_or_later (inl e) = Memᴰ.head e
      now_or_later (inr m) = Memᴰ.tail m

  pub earliest-select :
      (jobs : Jobs) (j : WorkflowJobRecord)
      → earliest none (select q jobs) ≡ some j
      → (q j ≡ true) × IsFirst j jobs × Memᴰ j jobs
  earliest-select [] j h = cc
  earliest-select (x ∷ xs) j h = elim (Bool-cases (q x)) [
    | inr skipped ↦
        let (a, d, m) = earliest-select xs j (ground (arith, skipped)) in
        (a, (λ e. cc, d), Memᴰ.tail m)
    | inl taken ↦
        let (a, c, d, m) = earliest-kept x xs j (ground (arith, taken)) taken in
        (a, (λ e. c, d), first m)
  ]
    where
      first : (j ≡ x) ⊎ Memᴰ j xs → Memᴰ j (x ∷ xs)
      first (inl e) = Memᴰ.head e
      first (inr m) = Memᴰ.tail m
