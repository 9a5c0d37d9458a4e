-- ===== src/Roi/Shape.antt =====
-- mas/knowledge/automation_roi/calculator.py: when `compute_automation_roi` raises, and that its
-- lookups find their roles.
use v.Prelude.{
  String, ◌≡◌, ◌≢◌, ◌↔◌, inl, inr, refl, true, none, some, List, [], ◌∷◌, all, All, arith, eq_iff,
  sym, ◌∙◌, Bool-cases, Option-cases,
}
use v.Prelude.Decimal.{DecimalOps}
use v.Prelude.Dict.{Dict, get, keys}
use v.Prelude.Texts.{one_of, same_set}
use v.Roi.Inputs.{
  ResolvedInput, roles, parts_of, formula_input_digest, provenance_fingerprint, value_part,
  provenance_part,
}
use v.Roi.Calculator.{
  RoiResult, computed, RoiComputation, Six, mismatched, require_six_roles, six_of, compute_six,
  compute_automation_roi,
}

module _ {A : Type 0} where
  pub get_of_key : (m : Dict A) (k : String) → one_of (keys m) k ≡ true → get m k ≢ none
  unfolding get keys
  get_of_key [] k h = cc
  get_of_key ((j, a) ∷ m) k h = ground (arith, h, get_of_key m k)

  pub key_of_get : (m : Dict A) (k : String) → get m k ≢ none → one_of (keys m) k ≡ true
  unfolding get keys
  key_of_get [] k h = ground (arith, h)
  key_of_get ((j, a) ∷ m) k h = ground (arith, h, key_of_get m k)

  -- A dict with every one of some keys.
  abbrev pub HasKeys : Dict A → List String → Type 0
  HasKeys m [] = Unit
  HasKeys m (k ∷ ks) = (get m k ≢ none) × HasKeys m ks

  pub keys-HasKeys :
      (m : Dict A) (ks : List String) → all (one_of (keys m)) ks ≡ true → HasKeys m ks
  keys-HasKeys m [] h = tt
  keys-HasKeys m (k ∷ ks) h =
      (get_of_key m k (ground (arith, h)), keys-HasKeys m ks (ground (arith, h)))

  pub parts-total :
      (f : String → A → String) (m : Dict A) (ks : List String)
      → HasKeys m ks
      → parts_of f m ks ≢ none
  parts-total f m [] h = cc
  parts-total f m (k ∷ ks) h = ground (arith, h, parts-total f m ks h.1)

module _ {D : Type 0} where
  -- The items of a dict have the six roles, each its own.
  abbrev pub HasRoles : Dict (ResolvedInput D) → Type 0
  HasRoles items = All (λ i. (one_of roles i.0 ≡ true) × (i.1.input_role ≡ i.0)) items

  HasRoles-mismatched :
      (items : Dict (ResolvedInput D))
      → HasRoles items
      → (all (one_of roles) (keys items) ≡ true) × (mismatched items ≡ none)
  unfolding keys
  HasRoles-mismatched [] h = (refl, refl)
  HasRoles-mismatched ((k, it) ∷ items) h =
      let rest = HasRoles-mismatched items h.1 in
      (ground (arith, h.0, rest), ground (arith, h.0, rest, eq_iff it.input_role k))

  mismatched-HasRoles :
      (items : Dict (ResolvedInput D))
      → all (one_of roles) (keys items) ≡ true
      → mismatched items ≡ none
      → HasRoles items
  unfolding keys
  mismatched-HasRoles [] h m = tt
  mismatched-HasRoles ((k, it) ∷ items) h m = (
    (ground (arith, h), ground (arith, m, eq_iff it.input_role k)),
    mismatched-HasRoles items (ground (arith, h)) (ground (arith, m)),
  )

module _ {D : Type 0} ⦃d : DecimalOps D⦄ (sha256 : String → String)
    (inputs : Dict (ResolvedInput D)) where
  digests-total :
      HasKeys inputs roles
      → (formula_input_digest sha256 inputs ≢ none) × (provenance_fingerprint sha256 inputs ≢ none)
  unfolding formula_input_digest provenance_fingerprint
  digests-total h = (
    ground (arith, parts-total value_part inputs roles h),
    ground (arith, parts-total provenance_part inputs roles h),
  )

  six_of-total : HasKeys inputs roles → six_of inputs ≢ none
  unfolding six_of
  six_of-total h = ground (arith, h)

  -- What the computation runs on.
  pub compute-total :
      (unavailable : List String)
      → same_set (keys inputs) roles ≡ true
      → mismatched inputs ≡ none
      → (digest provenance : String) × (x : Six D) × (six_of inputs ≡ some x)
        × (formula_input_digest sha256 inputs ≡ some digest)
        × (compute_automation_roi sha256 inputs unavailable
            ≡ computed (compute_six digest provenance x unavailable))
  unfolding compute_automation_roi require_six_roles
  compute-total unavailable h m =
      let has : HasKeys inputs roles = keys-HasKeys inputs roles (ground (arith, h)) in
      let found = digests-total has in
      elim (Option-cases (formula_input_digest sha256 inputs)) [
        | inl none_left ↦ absurd (found.0 none_left)
        | inr (digest, e) ↦ elim (Option-cases (provenance_fingerprint sha256 inputs)) [
          | inl none_left ↦ absurd (found.1 none_left)
          | inr (provenance, f) ↦ elim (Option-cases (six_of inputs)) [
            | inl none_left ↦ absurd (six_of-total has none_left)
            | inr (x, g) ↦ (digest, provenance, x, g, e, ground (arith, e, f, g, h, m))
          ]
        ]
      ]

  -- A result is of inputs that pass the shape check.
  pub compute_agrees :
      (unavailable : List String) (r : RoiComputation D)
      → compute_automation_roi sha256 inputs unavailable ≡ computed r
      → (same_set (keys inputs) roles ≡ true) × (mismatched inputs ≡ none)
  unfolding compute_automation_roi require_six_roles
  compute_agrees unavailable r h = (ground (arith, h), ground (arith, h))

  has_keys : (ks : List String) → HasKeys inputs ks → all (one_of (keys inputs)) ks ≡ true
  has_keys [] h = refl
  has_keys (k ∷ ks) h = ground (arith, key_of_get inputs k h.0, has_keys ks h.1)

  -- `compute_automation_roi` returns a result exactly if every one of the six roles has an input
  -- and every input has one of them as its key and its role; else it raises an error of the shape
  -- of the inputs, never a KeyError.
  pub compute_iff :
      (unavailable : List String)
      → (((r : RoiComputation D) × (compute_automation_roi sha256 inputs unavailable ≡ computed r))
          ↔ (HasRoles inputs × HasKeys inputs roles))
        × (compute_automation_roi sha256 inputs unavailable ≢ RoiResult.key_error)
  unfolding compute_automation_roi require_six_roles
  compute_iff unavailable = elim (Bool-cases (same_set (keys inputs) roles)) [
    | inr other ↦ (
      (
        λ (r, e). ground (arith, e, other),
        λ (a, b). absurd (ground (arith, other, HasRoles-mismatched inputs a, has_keys roles b)),
      ),
      ground (arith, other),
    )
    | inl same ↦ elim (Option-cases (mismatched inputs)) [
      | inr (found, e) ↦ (
        (
          λ (r, k). ground (arith, e, k, same),
          λ (a, b). absurd (ground (arith, e, HasRoles-mismatched inputs a)),
        ),
        ground (arith, e, same),
      )
      | inl agreed ↦
          let (digest, provenance, x, a, b, c) = compute-total unavailable same agreed in
          (
            (
              λ k. (
                mismatched-HasRoles inputs (ground (arith, same)) agreed,
                keys-HasKeys inputs roles (ground (arith, same)),
              ),
              λ k. (compute_six digest provenance x unavailable, c),
            ),
            λ k. no_key_error (compute_six digest provenance x unavailable) (sym c ∙ k),
          )
    ]
  ]
    where
      no_key_error : (r : RoiComputation D) → computed r ≢ RoiResult.key_error
      no_key_error r = cc
