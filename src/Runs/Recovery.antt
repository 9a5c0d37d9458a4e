-- ===== src/Runs/Recovery.antt =====
-- mas/runtime/run_state.py: the recovery of abandoned runs.
use v.Prelude.{
  ℕ, zero, suc, ◌+◌, ◌≤◌, String, ◌≡◌, refl, Bool, true, false, not, ◌&&◌, List, [], ◌∷◌, any, All,
  count_if, length, arith, eq_iff, str_eq, select, Bool-cases, inl, inr, ◌∙◌, sym, subst,
}
use v.Runs.Record.{
  WorkflowRunRecord, Setting, blank, malformed, number, normalize_stale_after_seconds,
  min_stale_after_seconds,
}
use v.Prelude.Int.{pos, negsuc}
use v.Runs.Table.{
  Table, abandoned, update_where, stale_row, count_stale, insert_by_age, sort_by_age, take, one_of,
  recover_stale_rows,
}

-- Whatever the setting, a run counts as abandoned only after 300 seconds at least.
pub normalize_bounds :
    (setting : Setting) → min_stale_after_seconds ≤ normalize_stale_after_seconds setting
unfolding normalize_stale_after_seconds
normalize_bounds blank = omega arith
normalize_bounds malformed = omega arith
normalize_bounds (number (pos n)) = ground arith
normalize_bounds (number (negsuc n)) = omega arith

-- The primary key: no two rows with one run_id.
abbrev pub ids_unique : Table → Bool
ids_unique [] = true
ids_unique (row ∷ rows) = not (any (λ r. str_eq r.run_id row.run_id) rows) && ids_unique rows

any-insert :
    (q : WorkflowRunRecord → Bool) (row : WorkflowRunRecord) (rows : Table)
    → any q (insert_by_age row rows) ≡ any q (row ∷ rows)
unfolding insert_by_age
any-insert q row [] = refl
any-insert q row (r ∷ rows) = ground (arith, any-insert q row rows)

any-sort : (q : WorkflowRunRecord → Bool) (rows : Table) → any q (sort_by_age rows) ≡ any q rows
unfolding sort_by_age
any-sort q [] = refl
any-sort q (r ∷ rows) = ground (arith, any-insert q r (sort_by_age rows), any-sort q rows)

any-take :
    (q : WorkflowRunRecord → Bool) (n : ℕ) (rows : Table)
    → any q (take n rows) ≡ true
    → any q rows ≡ true
any-take q zero rows h = cc
any-take q (suc n) [] h = h
any-take q (suc n) (r ∷ rows) h = ground (arith, any-take q n rows)

length-insert :
    (row : WorkflowRunRecord) (rows : Table) → length (insert_by_age row rows) ≡ suc (length rows)
unfolding insert_by_age
length-insert row [] = refl
length-insert row (r ∷ rows) = ground (arith, length-insert row rows)

length-sort : (rows : Table) → length (sort_by_age rows) ≡ length rows
unfolding sort_by_age
length-sort [] = refl
length-sort (r ∷ rows) = ground (arith, length-insert r (sort_by_age rows), length-sort rows)

length-select :
    (q : WorkflowRunRecord → Bool) (rows : Table) → length (select q rows) ≡ count_if q rows
length-select q [] = refl
length-select q (r ∷ rows) = ground (arith, length-select q rows)

take-all : (n : ℕ) (rows : Table) → length rows ≤ n → take n rows ≡ rows
take-all zero [] h = refl
take-all zero (r ∷ rows) h = absurd (omega arith)
take-all (suc n) [] h = refl
take-all (suc n) (r ∷ rows) h = rw (take-all n rows (omega arith))

module _ (now threshold : ℕ) (excluded : List String) where
  abbrev is_stale : WorkflowRunRecord → Bool
  is_stale = stale_row now threshold excluded

  one_of-select :
      (row : WorkflowRunRecord) (rows : Table)
      → any (λ r. str_eq r.run_id row.run_id) rows ≡ false
      → one_of (select is_stale rows) row ≡ false
  one_of-select row [] h = refl
  one_of-select row (r ∷ rows) h = ground (arith, one_of-select row rows)

  -- The ids of the stale rows pick the stale rows.
  abbrev Agree : Table → Table → Type 0
  Agree chosen rows = All (λ r. one_of chosen r ≡ is_stale r) rows

  Agree-cons :
      (row : WorkflowRunRecord) (chosen rows : Table)
      → any (λ r. str_eq r.run_id row.run_id) rows ≡ false
      → Agree chosen rows
      → Agree (row ∷ chosen) rows
  Agree-cons row chosen [] n h = tt
  Agree-cons row chosen (r ∷ rows) n h = (
    ground (arith, h.0, eq_iff r.run_id row.run_id, eq_iff row.run_id r.run_id),
    Agree-cons row chosen rows (ground arith) h.1,
  )

  Agree-select : (rows : Table) → ids_unique rows ≡ true → Agree (select is_stale rows) rows
  Agree-select [] h = tt
  Agree-select (r ∷ rows) h =
      let new_id : any (λ x. str_eq x.run_id r.run_id) rows ≡ false = ground arith in
      let rest : Agree (select is_stale rows) rows = Agree-select rows (ground arith) in
      elim (Bool-cases (is_stale r)) [
        | inl late ↦
            let e : select is_stale (r ∷ rows) ≡ r ∷ select is_stale rows = ground (arith, late) in
            subst (λ c. Agree c (r ∷ rows)) (sym e)
              (
                ground (arith, late, eq_iff r.run_id r.run_id),
                Agree-cons r (select is_stale rows) rows new_id rest,
              )
        | inr recent ↦
            let e : select is_stale (r ∷ rows) ≡ select is_stale rows = ground (arith, recent) in
            subst (λ c. Agree c (r ∷ rows)) (sym e)
              (ground (arith, recent, one_of-select r rows new_id), rest)
      ]

  -- A part of the stale rows, by its ids.
  abbrev Picks : Table → Table → Type 0
  Picks chosen rows = All (λ r. one_of chosen r ≡ true → is_stale r ≡ true) rows

  Picks-take :
      (n : ℕ) (all_stale rows : Table)
      → Agree all_stale rows
      → Picks (take n (sort_by_age all_stale)) rows
  Picks-take n c [] h = tt
  Picks-take n c (r ∷ rows) h = (
    λ k. ground (
      arith,
      k,
      h.0,
      any-take (λ x. str_eq x.run_id r.run_id) n (sort_by_age c),
      any-sort (λ x. str_eq x.run_id r.run_id) c,
    ),
    Picks-take n c rows h.1,
  )

  count-abandoned :
      (chosen rows : Table)
      → Picks chosen rows
      → count_if (one_of chosen) rows
          + count_if is_stale (update_where (one_of chosen) (abandoned now) rows)
        ≡ count_if is_stale rows
  count-abandoned c [] h = omega arith
  count-abandoned c (r ∷ rows) h = ground (arith, h.0, count-abandoned c rows h.1)

  none-abandoned :
      (chosen rows : Table)
      → Agree chosen rows
      → count_if is_stale (update_where (one_of chosen) (abandoned now) rows) ≡ 0
  none-abandoned c [] h = refl
  none-abandoned c (r ∷ rows) h = ground (arith, h.0, none-abandoned c rows h.1)

  Agree-sort : (chosen rows : Table) → Agree chosen rows → Agree (sort_by_age chosen) rows
  Agree-sort c [] h = tt
  Agree-sort c (r ∷ rows) h =
      (any-sort (λ x. str_eq x.run_id r.run_id) c ∙ h.0, Agree-sort c rows h.1)

  -- With distinct ids, the rows that a recovery returns and the stale rows that it leaves add up to
  -- the stale rows before, whatever its limit.
  pub recover-count :
      (limit : ℕ) (rows : Table)
      → ids_unique rows ≡ true
      → (recover_stale_rows now threshold limit excluded rows).1
          + count_stale now threshold excluded
              (recover_stale_rows now threshold limit excluded rows).0
        ≡ count_stale now threshold excluded rows
  unfolding recover_stale_rows count_stale
  recover-count limit rows h =
      count-abandoned (take limit (sort_by_age (select is_stale rows))) rows
        (Picks-take limit (select is_stale rows) rows (Agree-select rows h))

  -- With distinct ids, a recovery whose limit is not below the number of stale rows leaves none.
  pub recover-all :
      (limit : ℕ) (rows : Table)
      → ids_unique rows ≡ true
      → count_stale now threshold excluded rows ≤ limit
      → count_stale now threshold excluded (recover_stale_rows now threshold limit excluded rows).0
        ≡ 0
  unfolding recover_stale_rows count_stale
  recover-all limit rows h l =
      rw
        (take-all limit (sort_by_age (select is_stale rows))
          (ground (arith, length-sort (select is_stale rows), length-select is_stale rows)))
        (none-abandoned (sort_by_age (select is_stale rows)) rows
          (Agree-sort (select is_stale rows) rows (Agree-select rows h)))
