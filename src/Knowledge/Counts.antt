-- ===== src/Knowledge/Counts.antt =====
-- mas/knowledge/freshness.py: what `build_knowledge_health` reports.
use v.Prelude.{
  ◌+◌, String, ◌≡◌, refl, Option, some, List, [], ◌∷◌, length, count_if, select, arith,
  Option-cases, inl, inr, eq_iff, subst,
}
use v.Knowledge.Freshness.{
  fresh, stale, expired, quarantined, Instant, KnowledgeItem, SourceRegistryEntry,
  KnowledgeLayerState, refresh_knowledge_items,
}
use v.Knowledge.Health.{
  KnowledgeHealth, unconfigured, has_status, health_of, source_statuses, with_policies,
  configured_health, health_from, build_knowledge_health,
}

every_status :
    (items : List KnowledgeItem)
    → count_if (has_status fresh) items
        + count_if (has_status stale) items
        + count_if (has_status expired) items
        + count_if (has_status quarantined) items
      ≡ length items
every_status [] = refl
every_status (i ∷ items) = ground (arith, every_status items)

-- The counts add up, and a report that is current has none to review.
abbrev pub IsSound : KnowledgeHealth → Type 0
IsSound h =
    (h.fresh_item_count + h.stale_item_count + h.expired_item_count + h.quarantined_item_count
      ≡ h.item_count)
    × (h.status ≡ "current"
        → (h.stale_item_count ≡ 0)
          × (h.expired_item_count ≡ 0)
          × (h.failed_source_count ≡ 0)
          × (h.due_source_count ≡ 0))

health_of-IsSound : (layer : KnowledgeLayerState) (ss : List String) → IsSound (health_of layer ss)
health_of-IsSound layer ss = (
  every_status layer.items,
  λ e. ground (
    arith,
    e,
    eq_iff "sync_failed" "current",
    eq_iff "expired" "current",
    eq_iff "stale" "current",
  ),
)

unconfigured-IsSound : IsSound unconfigured
unconfigured-IsSound = (refl, λ e. (refl, refl, refl, refl))

module _ (parse : String → Option Instant) (strip : String → String) where
  configured-IsSound :
      (layer done : KnowledgeLayerState) (now : Instant) (h : KnowledgeHealth)
      → configured_health parse strip layer now ≡ some (h, done)
      → IsSound h
  configured-IsSound layer done now h k =
      elim (Option-cases (refresh_knowledge_items parse strip layer now)) [
        | inl failed ↦ ground (arith, k, failed)
        | inr (l, e) ↦
            elim (Option-cases (
              source_statuses parse strip (with_policies parse strip l) now
                (select (λ s. s.enabled) l.sources))) [
                  | inl failed ↦ ground (arith, k, e, failed)
                  | inr (ss, f) ↦
                      subst IsSound (reported l ss e f)
                        (health_of-IsSound (with_policies parse strip l) ss)
                ]
      ]
    where
      reported :
          (l : KnowledgeLayerState) (ss : List String)
          → refresh_knowledge_items parse strip layer now ≡ some l
          → source_statuses parse strip
              (with_policies parse strip l)
              now
              (select (λ s. s.enabled) l.sources)
            ≡ some ss
          → health_of (with_policies parse strip l) ss ≡ h
      reported l ss e f = ground (arith, k, e, f)

  -- In a report the counts of fresh, stale, expired and quarantined items add up to the number of
  -- items; and if its status is "current", it counts no stale and no expired item and no failed and
  -- no due source.
  pub build_knowledge_health-IsSound :
      (layer done : KnowledgeLayerState) (now : Instant) (h : KnowledgeHealth)
      → build_knowledge_health parse strip layer now ≡ some (h, done)
      → IsSound h
  unfolding build_knowledge_health
  build_knowledge_health-IsSound layer done now h k = from_sources layer.sources k
    where
      from_sources :
          (sources : List SourceRegistryEntry)
          → health_from parse strip sources layer now ≡ some (h, done)
          → IsSound h
      from_sources [] e =
          let same : unconfigured ≡ h = ground (arith, e) in subst IsSound same unconfigured-IsSound
      from_sources (s ∷ ss) e = configured-IsSound layer done now h e
