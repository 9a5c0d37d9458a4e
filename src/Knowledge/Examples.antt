-- ===== src/Knowledge/Examples.antt =====
-- Tests of the freshness of knowledge (mas/knowledge/freshness.py), and the theorems at concrete
-- inputs.
use v.Prelude.{
  ℕ, ◌*◌, ◌≤◌, String, ◌≡◌, ◌≢◌, ◌↔◌, ◌⊎◌, refl, true, Option, none, some, [], ◌∷◌, str_eq,
  if◌then◌else◌,
}
use v.Prelude.Int.{pos}
use v.Knowledge.Freshness.{
  fresh, expired, quarantined, Instant, naive, aware, KnowledgeItem, KnowledgeLayerState,
  SourceRegistryEntry, evaluate_knowledge_item_status, refresh_knowledge_items,
  get_freshness_policy, source_policy_id, evaluate_source_status,
}
use v.Knowledge.Ageing.{rank, later, status-later}
use v.Knowledge.Refresh.{evaluate_none_iff, IsZoned, NotYetExpired, AnchorZoned}
use v.Knowledge.Health.{KnowledgeHealth, build_knowledge_health, health_of}

-- In place of `datetime.fromisoformat`: two texts that it reads.
abbrev parse : String → Option Instant
parse t =
    if str_eq t "start" then some (naive 0) else if str_eq t "start Z" then some (aware 0) else none

abbrev strip : String → String
strip t = t

abbrev item : String → KnowledgeItem
item t = record {
  source_id = "s";
  observed_at = t;
  captured_at = "";
  effective_at = "";
  expires_at = "";
  freshness_status = fresh;
}

abbrev hours : ℕ → Instant
hours n = naive (n * 3_600_000_000)

abbrev source : SourceRegistryEntry
source = record {
  source_id = "s";
  enabled = true;
  freshness_policy_id = "";
  last_success_at = "start";
  last_error = "";
}

abbrev layer : KnowledgeLayerState
layer = record { sources = source ∷ []; items = item "start" ∷ []; freshness_policies = [] }

fresh_test :
    evaluate_knowledge_item_status parse (item "start") (pos 72) (pos 168) (hours 10) ≡ some fresh
unfolding evaluate_knowledge_item_status
fresh_test = refl

expired_test :
    evaluate_knowledge_item_status parse
      (item "start")
      (pos 72)
      (pos 168)
      (later (hours 10) 1_000_000_000_000)
    ≡ some expired
unfolding evaluate_knowledge_item_status
expired_test = refl

-- An instant with a time zone cannot be compared with the clock.
zone_test :
    evaluate_knowledge_item_status parse (item "start Z") (pos 72) (pos 168) (hours 10) ≡ none
unfolding evaluate_knowledge_item_status
zone_test = refl

status-later_example : rank fresh ≤ rank expired
status-later_example =
    status-later parse (item "start") (pos 72) (pos 168) (hours 10) 1_000_000_000_000 fresh expired
      fresh_test expired_test

evaluate_none_iff_example :
    (evaluate_knowledge_item_status parse (item "start Z") (pos 72) (pos 168) (naive 36_000) ≡ none)
    ↔ (((item "start Z").freshness_status ≢ quarantined)
        × (IsZoned parse ""
            ⊎ (NotYetExpired parse (item "start Z") 36_000 × AnchorZoned parse (item "start Z"))))
evaluate_none_iff_example = evaluate_none_iff parse (item "start Z") (pos 72) (pos 168) 36_000

abbrev refreshed : KnowledgeLayerState
refreshed = elim (refresh_knowledge_items parse strip layer (hours 100)) [
  | none ↦ layer
  | some l ↦ l
]

refreshes : refresh_knowledge_items parse strip layer (hours 100) ≡ some refreshed
unfolding refresh_knowledge_items evaluate_knowledge_item_status get_freshness_policy
    source_policy_id
refreshes = refl

abbrev report : KnowledgeHealth
report = health_of refreshed ("stale" ∷ [])

reports : build_knowledge_health parse strip layer (hours 100) ≡ some (report, refreshed)
unfolding build_knowledge_health refresh_knowledge_items evaluate_knowledge_item_status
    get_freshness_policy source_policy_id evaluate_source_status
reports = refl
