-- ===== src/Roi/Request.antt =====
-- mas/knowledge/automation_roi/calculator.py: the identity of a calculate request.
use v.Prelude.{String, ◌≡◌, inl, inr, refl, true, List, [], ◌∷◌, arith, Option-cases}
use v.Prelude.Dict.{Dict, get, keys}
use v.Prelude.Texts.{same_set, sorted, join}
use v.Roi.Inputs.{roles, rec_sep, formula_version, parts_of}
use v.Roi.Calculator.{digested, canonical_request_digest, request_part}
use v.Roi.Shape.{HasKeys, keys-HasKeys, parts-total}

parts_of-same :
    {A : Type 0} (f : String → A → String) (m n : Dict A) (ks : List String)
    → ((k : String) → get m k ≡ get n k)
    → parts_of f m ks ≡ parts_of f n ks
parts_of-same f m n [] h = refl
parts_of-same f m n (k ∷ ks) h = ground (arith, h k, parts_of-same f m n ks h)

module _ (sha256 : String → String) (project : String) (m n : Dict String) where
  -- Two maps whose keys are the six roles and that give every key the same id, whatever the order of
  -- their items, have one digest of a request, and it is returned without an error.
  pub canonical_request_digest-same :
      same_set (keys m) roles ≡ true
      → same_set (keys n) roles ≡ true
      → ((k : String) → get m k ≡ get n k)
      → (t : String) × (canonical_request_digest sha256 project m ≡ digested t)
        × (canonical_request_digest sha256 project n ≡ digested t)
  unfolding canonical_request_digest sorted
  canonical_request_digest-same h k e =
      elim (Option-cases (parts_of request_part m (sorted roles))) [
        | inl none_left ↦ absurd (parts-total request_part m (sorted roles) has none_left)
        | inr (ps, found) ↦ (
          sha256 (join rec_sep (project ∷ formula_version ∷ ps)),
          ground (arith, h, found),
          ground (arith, k, found, parts_of-same request_part m n (sorted roles) e),
        )
      ]
    where
      has : HasKeys m (sorted roles)
      has = keys-HasKeys m (sorted roles) (ground (arith, h))
