-- ===== src/Knowledge/Health.antt =====
-- mas/knowledge/freshness.py: `build_knowledge_health`. Its two entries that are copies of the sync
-- state are left out.
use v.Prelude.{
  ℕ, String, Bool, true, false, ◌||◌, Option, none, some, List, [], ◌∷◌, str_eq, ltb, length,
  count_if, select, if◌then◌else◌,
}
use v.Knowledge.Freshness.{
  KnowledgeItemStatus, fresh, stale, expired, quarantined, Instant, KnowledgeItem,
  SourceRegistryEntry, KnowledgeLayerState, refresh_knowledge_items, evaluate_source_status,
  ensured,
}

pub record KnowledgeHealth : Type 0 where
  pub status : String
  pub message : String
  pub source_count : ℕ
  pub enabled_source_count : ℕ
  pub item_count : ℕ
  pub fresh_item_count : ℕ
  pub stale_item_count : ℕ
  pub expired_item_count : ℕ
  pub quarantined_item_count : ℕ
  pub due_source_count : ℕ
  pub failed_source_count : ℕ

abbrev pub unconfigured : KnowledgeHealth
unconfigured = record {
  status = "unconfigured";
  message = "No knowledge sources configured.";
  source_count = 0;
  enabled_source_count = 0;
  item_count = 0;
  fresh_item_count = 0;
  stale_item_count = 0;
  expired_item_count = 0;
  quarantined_item_count = 0;
  due_source_count = 0;
  failed_source_count = 0;
}

abbrev pub has_status : KnowledgeItemStatus → KnowledgeItem → Bool
has_status s item = elim s [
  | fresh ↦ elim item.freshness_status [ fresh ↦ true | _ ↦ false ]
  | stale ↦ elim item.freshness_status [ stale ↦ true | _ ↦ false ]
  | expired ↦ elim item.freshness_status [ expired ↦ true | _ ↦ false ]
  | quarantined ↦ elim item.freshness_status [ quarantined ↦ true | _ ↦ false ]
]

-- How many of the source statuses are this one.
abbrev pub count_text : String → List String → ℕ
count_text t ss = count_if (λ s. str_eq s t) ss

abbrev pub is_positive : ℕ → Bool
is_positive n = ltb 0 n

abbrev pub health_status : List String → List KnowledgeItem → String × String
health_status ss items =
    if is_positive (count_text "failed" ss)
    then ("sync_failed", "One or more knowledge source syncs failed.")
    else if is_positive (count_text "expired" ss)
        || is_positive (count_if (has_status expired) items)
    then ("expired", "One or more knowledge sources or items are expired.")
    else if is_positive (count_text "stale" ss)
        || (is_positive (count_text "due" ss) || is_positive (count_if (has_status stale) items))
    then ("stale", "Knowledge sources need manual sync or review.")
    else ("current", "Knowledge sources are current.")

abbrev pub health_of : KnowledgeLayerState → List String → KnowledgeHealth
health_of layer ss = record {
  status = (health_status ss layer.items).0;
  message = (health_status ss layer.items).1;
  source_count = length layer.sources;
  enabled_source_count = length (select (λ s. s.enabled) layer.sources);
  item_count = length layer.items;
  fresh_item_count = count_if (has_status fresh) layer.items;
  stale_item_count = count_if (has_status stale) layer.items;
  expired_item_count = count_if (has_status expired) layer.items;
  quarantined_item_count = count_if (has_status quarantined) layer.items;
  due_source_count = count_text "due" ss;
  failed_source_count = count_text "failed" ss;
}

module _ (parse : String → Option Instant) (strip : String → String) where
  abbrev pub source_statuses :
      KnowledgeLayerState → Instant → List SourceRegistryEntry → Option (List String)
  source_statuses layer now [] = some []
  source_statuses layer now (s ∷ ss) =
      elim (evaluate_source_status parse strip layer s.source_id now) [
        | none ↦ none
        | some t ↦ elim (source_statuses layer now ss) [ none ↦ none | some ts ↦ some (t ∷ ts) ]
      ]

  abbrev pub with_policies : KnowledgeLayerState → KnowledgeLayerState
  with_policies layer = record layer { freshness_policies = ensured layer.freshness_policies }

  abbrev pub configured_health :
      KnowledgeLayerState → Instant → Option (KnowledgeHealth × KnowledgeLayerState)
  configured_health layer now = elim (refresh_knowledge_items parse strip layer now) [
    | none ↦ none
    | some done ↦
        elim (source_statuses (with_policies done) now (select (λ s. s.enabled) done.sources)) [
          | none ↦ none
          | some ss ↦ some (health_of (with_policies done) ss, with_policies done)
        ]
  ]

  abbrev pub health_from :
      List SourceRegistryEntry
      → KnowledgeLayerState
      → Instant
      → Option (KnowledgeHealth × KnowledgeLayerState)
  health_from [] layer now = some (unconfigured, layer)
  health_from (s ∷ ss) layer now = configured_health layer now

  -- The report, and the layer that it leaves.
  unfoldable pub build_knowledge_health :
      KnowledgeLayerState → Instant → Option (KnowledgeHealth × KnowledgeLayerState)
  build_knowledge_health layer now = health_from layer.sources layer now
