-- ===== src/EvidenceUse/Verdict.antt =====
-- mas/research_evidence/automation_roi_use_policy.py: what a verdict says of the bindings.
use v.Prelude.{
  String, ◌≡◌, refl, Bool, not, ◌&&◌, List, [], ◌∷◌, ◌++◌, all, arith, if◌then◌else◌, ap, ◌∙◌,
}
use mathlib.Core.List.{Permᴰ}
use v.EvidenceUse.Policy.{
  Binding, Expected, is_empty, hard_reasons, indeterminate_reasons, qualified_reasons,
  insert_sorted, sort_bindings, collect, evaluate_binding_set,
}

pub is_empty-append : (xs ys : List String) → is_empty (xs ++ ys) ≡ (is_empty xs && is_empty ys)
is_empty-append [] ys = refl
is_empty-append (x ∷ xs) ys = refl

module _ (f : Binding → List String) where
  -- The list is empty exactly if no binding adds to it, in whatever order the loop goes.
  empty-collect : (bs : List Binding) → is_empty (collect f bs) ≡ all (λ b. is_empty (f b)) bs
  unfolding collect
  empty-collect [] = refl
  empty-collect (b ∷ bs) = ground (arith, is_empty-append (f b) (collect f bs), empty-collect bs)

all-insert :
    (q : Binding → Bool) (b : Binding) (bs : List Binding)
    → all q (insert_sorted b bs) ≡ all q (b ∷ bs)
unfolding insert_sorted
all-insert q b [] = refl
all-insert q b (c ∷ cs) = ground (arith, all-insert q b cs)

all-sort : (q : Binding → Bool) (bs : List Binding) → all q (sort_bindings bs) ≡ all q bs
unfolding sort_bindings
all-sort q [] = refl
all-sort q (b ∷ bs) = ground (arith, all-insert q b (sort_bindings bs), all-sort q bs)

all-perm : (q : Binding → Bool) {bs cs : List Binding} → Permᴰ bs cs → all q bs ≡ all q cs
all-perm q Permᴰ.nil = refl
all-perm q (Permᴰ.cons e p) = ground (arith, ap q e, all-perm q p)
all-perm q (Permᴰ.swap e f) = ground (arith, ap q e, ap q f)
all-perm q (Permᴰ.trans p r) = all-perm q p ∙ all-perm q r

module _ (e : Expected) (successors : List String) where
  abbrev pub is_usable : Binding → Bool
  is_usable b = is_empty (hard_reasons e successors b)

  abbrev pub is_certain : Binding → Bool
  is_certain b = is_empty (indeterminate_reasons b)

  abbrev pub is_unqualified : Binding → Bool
  is_unqualified b = is_empty (qualified_reasons b)

  -- The status in terms of the bindings alone, in the order of precedence of the policy.
  pub evaluate-status :
      (bs : List Binding)
      → (evaluate_binding_set e successors bs).status ≡ (
          if not (all is_usable bs)
          then "does_not_satisfy"
          else if not (all is_certain bs)
          then "indeterminate"
          else if not (all is_unqualified bs)
          then "qualified"
          else "satisfies")
  unfolding evaluate_binding_set
  evaluate-status bs = ground (
    arith,
    empty-collect (hard_reasons e successors) (sort_bindings bs),
    empty-collect indeterminate_reasons (sort_bindings bs),
    empty-collect qualified_reasons (sort_bindings bs),
    all-sort is_usable bs,
    all-sort is_certain bs,
    all-sort is_unqualified bs,
  )

  -- The verdict stands or falls with the bindings, not with their order: two sets that hold the same
  -- bindings in any order have one status.
  pub evaluate-perm :
      (bs cs : List Binding)
      → Permᴰ bs cs
      → (evaluate_binding_set e successors bs).status
        ≡ (evaluate_binding_set e successors cs).status
  evaluate-perm bs cs p = ground (
    arith,
    evaluate-status bs,
    evaluate-status cs,
    all-perm is_usable p,
    all-perm is_certain p,
    all-perm is_unqualified p,
  )
