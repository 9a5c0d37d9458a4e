-- ===== src/Workflow/Collect.antt =====
-- mas/tools/scoring.py: `collect_downstream_phases`, the search of INVALIDATION_MAP
-- (mas/config.py). The loop takes fuel: `enough` is what it needs.
use v.Prelude.{
  ℕ, zero, suc, ◌+◌, String, Option, none, some, List, [], ◌∷◌, ◌++◌, length, if◌then◌else◌,
}
use v.Prelude.Dict.{Dict, get}
use v.Prelude.Texts.{one_of}

abbrev pub invalidation_map : Dict (List String)
invalidation_map =
    (
      "classify",
      "hypotheses" ∷ "gauntlet" ∷ "audit" ∷ "strategy" ∷ "sqi" ∷ "monitor" ∷ "report" ∷ [],
    )
    ∷ ("hypotheses", "gauntlet" ∷ "audit" ∷ "strategy" ∷ "sqi" ∷ "monitor" ∷ "report" ∷ [])
    ∷ ("gauntlet", "audit" ∷ "strategy" ∷ "sqi" ∷ "monitor" ∷ "report" ∷ [])
    ∷ ("audit", "strategy" ∷ "sqi" ∷ "monitor" ∷ "report" ∷ [])
    ∷ ("strategy", "sqi" ∷ "monitor" ∷ "report" ∷ [])
    ∷ ("sqi", [])
    ∷ ("monitor", "report" ∷ [])
    ∷ ("report", [])
    ∷ []

-- map.get(phase, [])
abbrev pub next_of : Dict (List String) → String → List String
next_of map phase = elim (get map phase) [ none ↦ [] | some ps ↦ ps ]

-- The loop on the queue; none where the fuel runs out.
unfoldable pub collect :
    ℕ → Dict (List String) → List String → List String → List String → Option (List String)
collect zero map [] seen ordered = some ordered
collect zero map (p ∷ queue) seen ordered = none
collect (suc fuel) map [] seen ordered = some ordered
collect (suc fuel) map (p ∷ queue) seen ordered =
    let skipped = collect fuel map queue seen ordered in
    let taken = collect fuel map (queue ++ next_of map p) (p ∷ seen) (ordered ++ p ∷ []) in
    if one_of seen p then skipped else taken

-- How many phases the lists of the keys not yet seen hold.
abbrev pub unseen_size : Dict (List String) → List String → ℕ
unseen_size [] seen = 0
unseen_size ((k, ps) ∷ map) seen =
    let rest = unseen_size map seen in if one_of seen k then rest else length ps + rest

abbrev pub enough : Dict (List String) → List String → ℕ
enough map queue = length queue + unseen_size map []

abbrev pub found_or_none : Option (List String) → List String
found_or_none none = []
found_or_none (some ps) = ps

unfoldable pub collect_downstream_phases : String → List String
unfolding collect get
collect_downstream_phases changed_phase =
    let queue = next_of invalidation_map changed_phase in
    found_or_none (collect (enough invalidation_map queue) invalidation_map queue [] [])
