-- ===== src/Knowledge/Freshness.antt =====
-- mas/knowledge/freshness.py, and the choice of a policy in mas/knowledge/registry.py. `none` is the
-- TypeError of a comparison of an instant with a time zone with one without; what the state holds
-- after it is left out. `datetime.fromisoformat` is the argument `parse` (none is its ValueError),
-- `str.strip` the argument `strip`; an instant is a number of microseconds.
use v.Prelude.{
  ℕ, zero, suc, ◌+◌, ◌*◌, String, Bool, true, false, not, Option, none, some, List, [], ◌∷◌, str_eq,
  leb, find_first, if◌then◌else◌,
}
use v.Prelude.Int.{ℤ, pos, negsuc}

pub data KnowledgeItemStatus : Type 0 where
  fresh stale expired quarantined : KnowledgeItemStatus

-- A datetime without a time zone, or one with it, in UTC.
pub data Instant : Type 0 where
  naive aware : ℕ → Instant

-- The fields that the evaluation reads or writes.
pub record KnowledgeItem : Type 0 where
  pub source_id : String
  pub observed_at : String
  pub captured_at : String
  pub effective_at : String
  pub expires_at : String
  pub freshness_status : KnowledgeItemStatus

pub record FreshnessPolicy : Type 0 where
  pub policy_id : String
  pub stale_after_hours : ℤ
  pub expire_after_hours : ℤ

pub record SourceRegistryEntry : Type 0 where
  pub source_id : String
  pub enabled : Bool
  pub freshness_policy_id : String
  pub last_success_at : String
  pub last_error : String

pub record KnowledgeLayerState : Type 0 where
  pub sources : List SourceRegistryEntry
  pub items : List KnowledgeItem
  pub freshness_policies : List FreshnessPolicy

abbrev pub default_freshness_policy : FreshnessPolicy
default_freshness_policy = record {
  policy_id = "default_offline";
  stale_after_hours = pos 72;
  expire_after_hours = pos 168;
}

-- The ticks of two instants that can be compared.
abbrev pub ticks : Instant → Instant → Option (ℕ × ℕ)
ticks (naive a) (naive b) = some (a, b)
ticks (aware a) (aware b) = some (a, b)
ticks (naive a) (aware b) = none
ticks (aware a) (naive b) = none

-- hours > 0 and now - anchor >= timedelta(hours=hours)
abbrev pub is_aged : ℤ → ℕ → ℕ → Bool
is_aged (pos zero) now anchor = false
is_aged (pos (suc n)) now anchor = leb (anchor + suc n * 3_600_000_000) now
is_aged (negsuc n) now anchor = false

-- a or b
abbrev pub first_of : Option Instant → Option Instant → Option Instant
first_of none o = o
first_of (some t) o = some t

abbrev pub or_now : Option Instant → Instant → Instant
or_now none now = now
or_now (some t) now = t

abbrev pub is_quarantined : KnowledgeItemStatus → Bool
is_quarantined quarantined = true
is_quarantined _ = false

-- The policies after `ensure_knowledge_layer`.
abbrev pub ensured : List FreshnessPolicy → List FreshnessPolicy
ensured [] = default_freshness_policy ∷ []
ensured (p ∷ ps) = p ∷ ps

abbrev pub head_or_default : List FreshnessPolicy → FreshnessPolicy
head_or_default [] = default_freshness_policy
head_or_default (p ∷ ps) = p

abbrev pub policy_or : Option FreshnessPolicy → FreshnessPolicy → FreshnessPolicy
policy_or none p = p
policy_or (some q) p = q

abbrev pub or_default_offline : String → String
or_default_offline id = if str_eq id "" then "default_offline" else id

-- `_source_policy_id` on a layer
unfoldable pub source_policy_id : List SourceRegistryEntry → String → String
source_policy_id [] id = "default_offline"
source_policy_id (s ∷ ss) id =
    if str_eq s.source_id id
    then or_default_offline s.freshness_policy_id
    else source_policy_id ss id

-- `get_freshness_policy`, the policy that it returns
unfoldable pub get_freshness_policy :
    (String → String) → List FreshnessPolicy → String → FreshnessPolicy
get_freshness_policy strip policies policy_id =
    policy_or (find_first (λ p. str_eq p.policy_id (strip policy_id)) (ensured policies))
      (head_or_default policies)

module _ (parse : String → Option Instant) where
  -- `_parse_dt`
  abbrev pub parse_dt : String → Option Instant
  parse_dt t = if str_eq t "" then none else parse t

  -- explicit_expiry is not None and now >= explicit_expiry
  abbrev pub is_past : Option Instant → Instant → Option Bool
  is_past none now = some false
  is_past (some t) now = elim (ticks now t) [ none ↦ none | some (n, e) ↦ some (leb e n) ]

  abbrev pub anchor_of : KnowledgeItem → Instant → Instant
  anchor_of item now =
      or_now
        (first_of (parse_dt item.observed_at)
          (first_of (parse_dt item.effective_at) (parse_dt item.captured_at)))
        now

  abbrev pub by_age : ℤ → ℤ → ℕ → ℕ → KnowledgeItemStatus
  by_age stale_after expire_after now anchor =
      if is_aged expire_after now anchor
      then expired
      else if is_aged stale_after now anchor
      then stale
      else fresh

  unfoldable pub evaluate_knowledge_item_status :
      KnowledgeItem → ℤ → ℤ → Instant → Option KnowledgeItemStatus
  evaluate_knowledge_item_status item stale_after_hours expire_after_hours now =
      if is_quarantined item.freshness_status
      then some quarantined
      else elim (is_past (parse_dt item.expires_at) now) [
        | none ↦ none
        | some true ↦ some expired
        | some false ↦ elim (ticks now (anchor_of item now)) [
          | none ↦ none
          | some (n, a) ↦ some (by_age stale_after_hours expire_after_hours n a)
        ]
      ]

  module _ (strip : String → String) where
    abbrev pub item_status :
        KnowledgeLayerState → KnowledgeItem → Instant → Option KnowledgeItemStatus
    item_status layer item now =
        let policy =
          get_freshness_policy strip layer.freshness_policies
            (source_policy_id layer.sources item.source_id) in
        evaluate_knowledge_item_status item policy.stale_after_hours policy.expire_after_hours now

    -- The loop of `refresh_knowledge_items`.
    abbrev pub refresh_items :
        KnowledgeLayerState → Instant → List KnowledgeItem → Option (List KnowledgeItem)
    refresh_items layer now [] = some []
    refresh_items layer now (item ∷ items) = elim (item_status layer item now) [
      | none ↦ none
      | some s ↦ elim (refresh_items layer now items) [
        | none ↦ none
        | some rest ↦ some (record item { freshness_status = s } ∷ rest)
      ]
    ]

    abbrev pub after_items : List KnowledgeItem → List FreshnessPolicy → List FreshnessPolicy
    after_items [] policies = policies
    after_items (item ∷ items) policies = ensured policies

    -- `refresh_knowledge_items` on a layer
    unfoldable pub refresh_knowledge_items :
        KnowledgeLayerState → Instant → Option KnowledgeLayerState
    refresh_knowledge_items layer now = elim (refresh_items layer now layer.items) [
      | none ↦ none
      | some items ↦ some (record layer {
        items = items;
        freshness_policies = after_items layer.items layer.freshness_policies;
      })
    ]

    abbrev source_by_age : FreshnessPolicy → ℕ → ℕ → String
    source_by_age policy n a =
        if is_aged policy.expire_after_hours n a
        then "expired"
        else if is_aged policy.stale_after_hours n a
        then "stale"
        else "current"

    abbrev known_source_status :
        List FreshnessPolicy → Instant → SourceRegistryEntry → Option String
    known_source_status policies now source =
        if not source.enabled
        then some "disabled"
        else if not (str_eq source.last_error "")
        then some "failed"
        else elim (parse_dt source.last_success_at) [
          | none ↦ some "due"
          | some last ↦ elim (ticks now last) [
            | none ↦ none
            | some (n, a) ↦
                some (
                  source_by_age (get_freshness_policy strip policies source.freshness_policy_id) n
                    a)
          ]
        ]

    -- `evaluate_source_status` on a layer
    unfoldable pub evaluate_source_status : KnowledgeLayerState → String → Instant → Option String
    evaluate_source_status layer source_id now =
        elim (find_first (λ s. str_eq s.source_id source_id) layer.sources) [
          | none ↦ some "missing"
          | some source ↦ known_source_status layer.freshness_policies now source
        ]
