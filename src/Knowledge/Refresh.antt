-- ===== src/Knowledge/Refresh.antt =====
-- mas/knowledge/freshness.py: what a refresh of the items leaves, and when it raises.
use v.Prelude.{
  ℕ, ◌<◌, ◌≢◌, String, ◌≡◌, ◌↔◌, ◌⊎◌, inl, inr, refl, Option, none, some, List, [], ◌∷◌, arith,
  Option-cases,
}
use v.Prelude.Int.{ℤ}
use v.Knowledge.Freshness.{
  KnowledgeItemStatus, quarantined, Instant, naive, aware, KnowledgeItem, KnowledgeLayerState,
  SourceRegistryEntry, FreshnessPolicy, parse_dt, evaluate_knowledge_item_status,
  refresh_knowledge_items, refresh_items, item_status, get_freshness_policy, ensured,
  source_policy_id, after_items,
}

module _ (parse : String → Option Instant) where
  evaluate-again :
      (item : KnowledgeItem) (s e : ℤ) (now : Instant) (a : KnowledgeItemStatus)
      → evaluate_knowledge_item_status parse item s e now ≡ some a
      → evaluate_knowledge_item_status parse (record item { freshness_status = a }) s e now ≡ some a
  unfolding evaluate_knowledge_item_status
  evaluate-again item s e now a h = ground (arith, h)

  abbrev pub IsZoned : String → Type 0
  IsZoned text = (t : ℕ) × (parse_dt parse text ≡ some (aware t))

  abbrev pub IsUnread : String → Type 0
  IsUnread text = parse_dt parse text ≡ none

  -- The time of observation has a time zone; or it cannot be read and that of the effect has one; or
  -- neither can be read and that of the capture has one.
  abbrev pub AnchorZoned : KnowledgeItem → Type 0
  AnchorZoned item =
      IsZoned item.observed_at
      ⊎ ((IsUnread item.observed_at × IsZoned item.effective_at)
          ⊎ (IsUnread item.observed_at × (IsUnread item.effective_at × IsZoned item.captured_at)))

  -- The item has no expiry that can be read, or one without a time zone after the clock `c`.
  abbrev pub NotYetExpired : KnowledgeItem → ℕ → Type 0
  NotYetExpired item c =
      IsUnread item.expires_at
      ⊎ ((t : ℕ) × (parse_dt parse item.expires_at ≡ some (naive t)) × (c < t))

  -- With a clock without a time zone, as datetime.now() is, the evaluation of an item raises exactly
  -- if the item is not quarantined and either its expiry has a time zone, or it has not expired and
  -- the first that can be read of its times of observation, effect and capture has one.
  pub evaluate_none_iff :
      (item : KnowledgeItem) (s e : ℤ) (c : ℕ)
      → (evaluate_knowledge_item_status parse item s e (naive c) ≡ none) ↔ (
          (item.freshness_status ≢ quarantined)
          × (IsZoned item.expires_at ⊎ (NotYetExpired item c × AnchorZoned item)))
  unfolding evaluate_knowledge_item_status
  evaluate_none_iff item s e c = ground arith

  module _ (strip : String → String) where
    item_status-again :
        (layer : KnowledgeLayerState) (item : KnowledgeItem) (now : Instant)
        (a : KnowledgeItemStatus)
        → item_status parse strip layer item now ≡ some a
        → item_status parse strip layer (record item { freshness_status = a }) now ≡ some a
    item_status-again layer item now a h =
        let policy =
          get_freshness_policy strip layer.freshness_policies
            (source_policy_id layer.sources item.source_id) in
        evaluate-again item policy.stale_after_hours policy.expire_after_hours now a h

    -- Two layers with the same sources, and the same policies but for the default one added.
    policy-ensured :
        (ps : List FreshnessPolicy) (id : String)
        → get_freshness_policy strip (ensured ps) id ≡ get_freshness_policy strip ps id
    unfolding get_freshness_policy
    policy-ensured [] id = ground arith
    policy-ensured (p ∷ ps) id = refl

    refresh_items-again :
        (layer : KnowledgeLayerState) (now : Instant) (items done : List KnowledgeItem)
        → refresh_items parse strip layer now items ≡ some done
        → refresh_items parse strip layer now done ≡ some done
    refresh_items-again layer now [] done h = ground (arith, h)
    refresh_items-again layer now (item ∷ items) done h =
        elim (Option-cases (item_status parse strip layer item now)) [
          | inl failed ↦ ground (arith, h, failed)
          | inr (s, e) ↦ elim (Option-cases (refresh_items parse strip layer now items)) [
            | inl failed ↦ ground (arith, h, e, failed)
            | inr (rest, f) ↦ ground (
              arith,
              h,
              e,
              f,
              item_status-again layer item now s e,
              refresh_items-again layer now items rest f,
            )
          ]
        ]

    refresh_items-ensured :
        (layer : KnowledgeLayerState) (now : Instant) (items all_items : List KnowledgeItem)
        → refresh_items parse strip
            (record layer {
              items = all_items;
              freshness_policies = ensured layer.freshness_policies;
            })
            now
            items
          ≡ refresh_items parse strip layer now items
    refresh_items-ensured layer now [] all_items = refl
    refresh_items-ensured layer now (item ∷ items) all_items = ground (
      arith,
      policy-ensured layer.freshness_policies (source_policy_id layer.sources item.source_id),
      refresh_items-ensured layer now items all_items,
    )

    refreshed-ensured :
        (layer : KnowledgeLayerState) (now : Instant) (items : List KnowledgeItem)
        → refresh_items parse strip layer now items ≡ some items
        → refresh_knowledge_items parse strip
            (record layer { items = items; freshness_policies = ensured layer.freshness_policies })
            now
          ≡ some (record layer {
            items = items;
            freshness_policies = ensured layer.freshness_policies;
          })
    unfolding refresh_knowledge_items
    refreshed-ensured layer now items h = ground (
      arith,
      h,
      refresh_items-ensured layer now items items,
      after_ensured items layer.freshness_policies,
    )
      where
        after_ensured :
            (items : List KnowledgeItem) (ps : List FreshnessPolicy)
            → after_items parse strip items (ensured ps) ≡ ensured ps
        after_ensured [] ps = refl
        after_ensured (i ∷ is) [] = refl
        after_ensured (i ∷ is) (p ∷ ps) = refl

    again :
        (sources : List SourceRegistryEntry) (items : List KnowledgeItem)
        (ps : List FreshnessPolicy) (done : KnowledgeLayerState) (now : Instant)
        → let layer : KnowledgeLayerState = record {
          sources = sources;
          items = items;
          freshness_policies = ps;
        } in
          refresh_knowledge_items parse strip layer now ≡ some done
          → refresh_knowledge_items parse strip done now ≡ some done
    unfolding refresh_knowledge_items
    again sources [] ps done now h = ground (arith, h)
    again sources (item ∷ items) ps done now h =
        let layer : KnowledgeLayerState = record {
          sources = sources;
          items = item ∷ items;
          freshness_policies = ps;
        } in
        elim (Option-cases (refresh_items parse strip layer now (item ∷ items))) [
          | inl failed ↦ ground (arith, h, failed)
          | inr (xs, found) ↦
              let again_found = refresh_items-again layer now (item ∷ items) xs found in
              let result = refreshed-ensured layer now xs again_found in
              ground (arith, h, found, result)
        ]

    -- If a refresh does not raise, a second one at the same instant does not and changes nothing.
    pub refresh-again :
        (layer done : KnowledgeLayerState) (now : Instant)
        → refresh_knowledge_items parse strip layer now ≡ some done
        → refresh_knowledge_items parse strip done now ≡ some done
    refresh-again layer done now h =
        again layer.sources layer.items layer.freshness_policies done now h
