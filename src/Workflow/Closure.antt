-- ===== src/Workflow/Closure.antt =====
-- mas/tools/scoring.py: that the search of `collect_downstream_phases` ends, and what it finds.
use v.Prelude.{
  ℕ, zero, suc, ◌+◌, ◌≤◌, String, ◌≡◌, refl, sym, Bool, true, false, ◌||◌, some, List, [], ◌∷◌,
  ◌++◌, length, length-append, arith, eq_iff, Bool-cases, inl, inr, subst,
}
use v.Prelude.Dict.{Dict, get}
use v.Prelude.Texts.{one_of}
use v.Workflow.Collect.{
  next_of, collect, unseen_size, enough, invalidation_map, found_or_none, collect_downstream_phases,
}

-- Seeing one more key leaves no more to see.
unseen-shrinks :
    (map : Dict (List String)) (seen : List String) (p : String)
    → unseen_size map (p ∷ seen) ≤ unseen_size map seen
unseen-shrinks [] seen p = ground arith
unseen-shrinks ((k, ps) ∷ map) seen p = ground (arith, unseen-shrinks map seen p)

unseen-next :
    (map : Dict (List String)) (seen : List String) (p : String)
    → one_of seen p ≡ false
    → length (next_of map p) + unseen_size map (p ∷ seen) ≤ unseen_size map seen
unfolding get
unseen-next [] seen p new = ground arith
unseen-next ((k, ps) ∷ map) seen p new =
    ground
      (arith, new, eq_iff k p, eq_iff p k, unseen-next map seen p new, unseen-shrinks map seen p)

collect-ends :
    (fuel : ℕ) (map : Dict (List String)) (queue seen ordered : List String)
    → length queue + unseen_size map seen ≤ fuel
    → (ps : List String) × (collect fuel map queue seen ordered ≡ some ps)
unfolding collect
collect-ends zero map [] seen ordered h = (ordered, refl)
collect-ends zero map (p ∷ queue) seen ordered h = absurd (omega arith)
collect-ends (suc fuel) map [] seen ordered h = (ordered, refl)
collect-ends (suc fuel) map (p ∷ queue) seen ordered h = elim (Bool-cases (one_of seen p)) [
  | inl old ↦
      let (ps, e) = collect-ends fuel map queue seen ordered (omega arith) in
      (ps, ground (arith, old, e))
  | inr new ↦
      let (ps, e) =
        collect-ends fuel map (queue ++ next_of map p) (p ∷ seen) (ordered ++ p ∷ [])
          (ground (arith, h, length-append queue (next_of map p), unseen-next map seen p new)) in
      (ps, ground (arith, new, e))
]

-- The search ends, for every map of the dependencies, cyclic ones too, and every queue to start
-- with: fuel for the queue and for the lists of all keys gives a result.
pub collect-enough :
    (map : Dict (List String)) (queue : List String)
    → (ps : List String) × (collect (enough map queue) map queue [] [] ≡ some ps)
collect-enough map queue = collect-ends (enough map queue) map queue [] [] (omega arith)

one_of-append :
    (xs ys : List String) (x : String) → one_of (xs ++ ys) x ≡ (one_of xs x || one_of ys x)
one_of-append [] ys x = refl
one_of-append (y ∷ xs) ys x = ground (arith, one_of-append xs ys x)

-- What the queue and the phases found have in common, the result has.
collect_sound :
    (P : String → Bool) (fuel : ℕ) (map : Dict (List String)) (queue seen ordered ps : List String)
    → collect fuel map queue seen ordered ≡ some ps
    → ((x : String) → one_of queue x ≡ true → P x ≡ true)
    → ((x : String) → one_of ordered x ≡ true → P x ≡ true)
    → ((p x : String) → P p ≡ true → one_of (next_of map p) x ≡ true → P x ≡ true)
    → (x : String) → one_of ps x ≡ true
    → P x ≡ true
unfolding collect
collect_sound P zero map [] seen ordered ps e q o c x h = o x (ground (arith, e, h))
collect_sound P zero map (p ∷ queue) seen ordered ps e q o c x h = absurd (ground (arith, e))
collect_sound P (suc fuel) map [] seen ordered ps e q o c x h = o x (ground (arith, e, h))
collect_sound P (suc fuel) map (p ∷ queue) seen ordered ps e q o c x h =
    elim (Bool-cases (one_of seen p)) [
      | inl old ↦
          collect_sound P fuel map queue seen ordered ps (ground (arith, e, old))
            (λ y i. q y (ground (arith, i))) o c x h
      | inr new ↦
          collect_sound P fuel map (queue ++ next_of map p) (p ∷ seen) (ordered ++ p ∷ []) ps
            (ground (arith, e, new))
            (λ y i.
              ground (arith, i, one_of-append queue (next_of map p) y, q y, c p y, q p, eq_iff p p))
            (λ y i.
              ground (arith, i, one_of-append ordered (p ∷ []) y, o y, q p, eq_iff p p, eq_iff p y))
            c x h
    ]

-- Seen and found are the same phases, and what a phase that was seen leads to is seen or queued.
abbrev Same : List String → List String → Type 0
Same seen ordered = (x : String) → one_of seen x ≡ one_of ordered x

abbrev Led : Dict (List String) → List String → List String → Type 0
Led map queue seen =
    (p x : String)
    → one_of seen p ≡ true
    → one_of (next_of map p) x ≡ true
    → (one_of seen x || one_of queue x) ≡ true

abbrev pub Closed : Dict (List String) → List String → Type 0
Closed map ps =
    (p x : String) → one_of ps p ≡ true → one_of (next_of map p) x ≡ true → one_of ps x ≡ true

collect_complete :
    (fuel : ℕ) (map : Dict (List String)) (queue seen ordered ps : List String)
    → collect fuel map queue seen ordered ≡ some ps
    → Same seen ordered
    → Led map queue seen
    → ((x : String) → (one_of seen x || one_of queue x) ≡ true → one_of ps x ≡ true) × Closed map ps
unfolding collect
collect_complete zero map [] seen ordered ps e s l =
    (λ x i. ground (arith, e, i, s x), λ p x i n. ground (arith, e, i, n, s x, s p, l p x))
collect_complete zero map (p ∷ queue) seen ordered ps e s l = absurd (ground (arith, e))
collect_complete (suc fuel) map [] seen ordered ps e s l =
    (λ x i. ground (arith, e, i, s x), λ p x i n. ground (arith, e, i, n, s x, s p, l p x))
collect_complete (suc fuel) map (p ∷ queue) seen ordered ps e s l =
    elim (Bool-cases (one_of seen p)) [
      | inl old ↦
          let rest =
            collect_complete fuel map queue seen ordered ps (ground (arith, e, old)) s
              (λ q x i n. ground (arith, old, i, n, l q x, eq_iff p x)) in
          (λ x i. rest.0 x (ground (arith, i, old, eq_iff p x)), rest.1)
      | inr new ↦
          let rest =
            collect_complete fuel map (queue ++ next_of map p) (p ∷ seen) (ordered ++ p ∷ []) ps
              (ground (arith, e, new)) (λ x. ground (arith, s x, one_of-append ordered (p ∷ []) x))
              (λ q x i n.
                ground (arith, i, n, l q x, one_of-append queue (next_of map p) x, eq_iff p q)) in
          (λ x i. rest.0 x (ground (arith, i, one_of-append queue (next_of map p) x)), rest.1)
    ]

-- The least list of phases that has the queue and what its members lead to.
unfoldable pub Least : Dict (List String) → List String → List String → Type 0
Least map queue ps =
    ((x : String) → one_of queue x ≡ true → one_of ps x ≡ true)
    × (Closed map ps
        × ((P : String → Bool)
            → ((x : String) → one_of queue x ≡ true → P x ≡ true)
            → ((p x : String) → P p ≡ true → one_of (next_of map p) x ≡ true → P x ≡ true)
            → (x : String) → one_of ps x ≡ true
            → P x ≡ true))

-- With that fuel the search finds the phases that can be reached and no others: the least list
-- that has the queue and is closed under the map.
pub collect-Least :
    (map : Dict (List String)) (queue ps : List String)
    → collect (enough map queue) map queue [] [] ≡ some ps
    → Least map queue ps
unfolding Least
collect-Least map queue ps e =
    let found =
      collect_complete (enough map queue) map queue [] [] ps e (λ x. refl)
        (λ p x i n. absurd (ground (arith, i))) in
    (
      λ x i. found.0 x i,
      (
        found.1,
        λ P q c.
            collect_sound P (enough map queue) map queue [] [] ps e q
              (λ x i. absurd (ground (arith, i))) c,
      ),
    )

-- The phases that `collect_downstream_phases` names are those that can be reached from the changed
-- phase in the map of the configuration: the least list that has the phases it invalidates directly
-- and is closed under the map. The search never stops short.
pub collect_downstream_phases-Least :
    (phase : String)
    → Least invalidation_map (next_of invalidation_map phase) (collect_downstream_phases phase)
unfolding collect_downstream_phases
collect_downstream_phases-Least phase =
    let (ps, e) = collect-enough invalidation_map (next_of invalidation_map phase) in
    subst (λ r. Least invalidation_map (next_of invalidation_map phase) (found_or_none r)) (sym e)
      (collect-Least invalidation_map (next_of invalidation_map phase) ps e)
