-- ===== src/Prelude/Texts.antt =====
-- What the program does with lists of texts: sorting, sets and joining.
use mathlib.Core.Bool.{Bool, true, false, not}
use mathlib.Core.List.{List, [], ◌∷◌}
use Prim.Native.Nat.{Ordering}
use Prim.Native.String.{String, compare, ◌++◌}
use text.Mathlib.Text.{◌==◌ as str_eq}
use v.Prelude.Tests.{if◌then◌else◌}
use v.Prelude.Lists.{any, all, select}

abbrev pub one_of : List String → String → Bool
one_of texts t = any (λ s. str_eq s t) texts

-- s <= t
abbrev pub text_le : String → String → Bool
text_le s t = elim (compare s t) [ Ordering.gt ↦ false | _ ↦ true ]

abbrev insert_text : String → List String → List String
insert_text t [] = t ∷ []
insert_text t (s ∷ ss) = if text_le t s then t ∷ s ∷ ss else s ∷ insert_text t ss

-- sorted(texts)
unfoldable pub sorted : List String → List String
sorted [] = []
sorted (t ∷ ts) = insert_text t (sorted ts)

-- sep.join(texts)
unfoldable pub join : String → List String → String
join sep [] = ""
join sep (t ∷ []) = t
join sep (t ∷ u ∷ us) = t ++ (sep ++ join sep (u ∷ us))

-- sorted(a - b)
unfoldable pub difference : List String → List String → List String
unfolding sorted
difference a b = sorted (select (λ t. not (one_of b t)) a)

-- set(a) == set(b)
abbrev pub same_set : List String → List String → Bool
same_set a b = if all (one_of b) a then all (one_of a) b else false
