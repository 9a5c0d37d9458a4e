-- ===== src/Workflow/Order.antt =====
-- mas/workflow_templates.py: the order of the phases in the sequences, and the tests and lemmas on
-- lists of phases that the theorems on the runner need.
use v.Prelude.{
  if-elim, String, ◌≡◌, ◌≢◌, refl, sym, Bool, true, false, not, ◌&&◌, ◌||◌, List, [], ◌∷◌, str_eq,
  all, arith, eq_iff, Bool-cases, inl, inr, ◌⊎◌, subst,
}
use v.Prelude.Dict.{get}
use v.Prelude.Texts.{one_of}
use v.Workflow.Templates.{
  strategic_audit_phase_sequence, technology_readiness_phase_sequence, phases_after, phases_from,
}
use v.Workflow.Collect.{collect, collect_downstream_phases}
use v.Workflow.Invalidation.{strategy_derived_phases, to_invalidate}
use v.Workflow.Reply.{is_known, no_missing}

-- A run of `phase` leaves an earlier phase alone.
abbrev pub spares : List String → String → String → Bool
spares sequence earlier phase =
    not (str_eq phase earlier)
    && (not (one_of (to_invalidate sequence phase) earlier)
        && (not (str_eq phase "strategy")
            || (not (one_of strategy_derived_phases earlier) && not (str_eq "strategy" earlier))))

-- Every phase of the list is known, invalidates the later ones and is spared by them, and the report
-- comes last.
abbrev pub in_order : List String → List String → Bool
in_order sequence [] = true
in_order sequence (p ∷ ps) =
    let rest = in_order sequence ps in
    is_known p
    && (all (spares sequence p) ps
        && (all (one_of (to_invalidate sequence p)) ps
            && ((not (str_eq p "report") || no_missing ps) && rest)))

pub all-one_of :
    (f : String → Bool) (ps : List String) (q : String)
    → all f ps ≡ true
    → one_of ps q ≡ true
    → f q ≡ true
all-one_of f [] q h i = absurd (ground (arith, i))
all-one_of f (p ∷ ps) q h i = elim (Bool-cases (str_eq p q)) [
  | inl same ↦
      let e : p ≡ q = ground (arith, same, eq_iff p q) in
      subst (λ x. f x ≡ true) e (ground (arith, h))
  | inr other ↦ all-one_of f ps q (ground (arith, h)) (ground (arith, i, other))
]

pub nothing-later : (ps : List String) (q : String) → no_missing ps ≡ true → one_of ps q ≡ true → ⊥
nothing-later [] q h i = ground (arith, i)
nothing-later (p ∷ ps) q h i = ground (arith, h)

pub clash : {b : Bool} → b ≡ true → b ≡ false → ⊥
clash h k = ground (arith, h, k)

pub and-parts : (a b : Bool) → (a && b) ≡ true → (a ≡ true) × (b ≡ true)
and-parts a b h = ground (arith, h)

or-part : (a b : Bool) → (not a || b) ≡ true → a ≡ true → b ≡ true
or-part a b h k = ground (arith, h, k)

pub all-in-order :
    (sequence : List String)
    → (sequence ≡ strategic_audit_phase_sequence) ⊎ (sequence ≡ technology_readiness_phase_sequence)
    → in_order sequence sequence ≡ true
unfolding to_invalidate phases_after collect_downstream_phases collect get
all-in-order sequence (inl e) = subst (λ s. in_order s s ≡ true) (sym e) refl
all-in-order sequence (inr e) = subst (λ s. in_order s s ≡ true) (sym e) refl

-- What a list in order says of its first phase.
pub record Ordered (sequence : List String) (p : String) (ps : List String) : Type 0 where
  pub known : is_known p ≡ true
  pub spared : all (spares sequence p) ps ≡ true
  pub invalidates : all (one_of (to_invalidate sequence p)) ps ≡ true
  pub report_last : str_eq p "report" ≡ true → no_missing ps ≡ true
  pub tail : in_order sequence ps ≡ true

pub ordered :
    (sequence : List String) (p : String) (ps : List String)
    → in_order sequence (p ∷ ps) ≡ true
    → Ordered sequence p ps
ordered sequence p ps o =
    let (known, o1) = and-parts (is_known p) _ o in
    let (spared, o2) = and-parts (all (spares sequence p) ps) _ o1 in
    let (invalidates, o3) = and-parts (all (one_of (to_invalidate sequence p)) ps) _ o2 in
    let (last, tail) =
      and-parts (not (str_eq p "report") || no_missing ps) (in_order sequence ps) o3 in
    record {
      known = known;
      spared = spared;
      invalidates = invalidates;
      report_last = or-part (str_eq p "report") (no_missing ps) last;
      tail = tail;
    }

pub later-other :
    (sequence : List String) (p : String) (ps : List String) (q : String)
    → all (spares sequence p) ps ≡ true
    → one_of ps q ≡ true
    → p ≢ q
later-other sequence p ps q s i =
    let k : spares sequence p q ≡ true = all-one_of (spares sequence p) ps q s i in
    ground (arith, k, eq_iff q p)

pub all-from :
    (f : String → Bool) (start : String) (ps : List String)
    → all f ps ≡ true
    → all f (phases_from start ps) ≡ true
unfolding phases_from
all-from f start [] h = h
all-from f start (p ∷ ps) h =
    if-elim (λ qs. all f qs ≡ true) (p ∷ ps) (phases_from start ps) (str_eq p start) (λ e. h)
      (λ e. all-from f start ps ((and-parts (f p) (all f ps) h).1))

pub phases_from-here : (p : String) (ps : List String) → phases_from p (p ∷ ps) ≡ p ∷ ps
unfolding phases_from
phases_from-here p ps = ground (arith, eq_iff p p)

pub phases_from-other :
    (start p : String) (ps : List String)
    → p ≢ start
    → phases_from start (p ∷ ps) ≡ phases_from start ps
unfolding phases_from
phases_from-other start p ps d = ground (arith, d, eq_iff p start)
