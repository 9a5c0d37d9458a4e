-- ===== src/Knowledge/Ageing.antt =====
-- mas/knowledge/freshness.py: how the status of an item changes with time.
use v.Prelude.{ℕ, zero, suc, ◌+◌, ◌≤◌, String, ◌≡◌, refl, true, false, Option, none, some, arith}
use v.Prelude.Int.{ℤ, pos, negsuc}
use v.Knowledge.Freshness.{
  KnowledgeItemStatus, fresh, stale, expired, quarantined, Instant, naive, aware, KnowledgeItem,
  ticks, is_aged, is_past, by_age, parse_dt, first_of, or_now, evaluate_knowledge_item_status,
}

abbrev pub rank : KnowledgeItemStatus → ℕ
rank fresh = 0
rank stale = 1
rank expired = 2
rank quarantined = 3

-- The clock after some microseconds.
abbrev pub later : Instant → ℕ → Instant
later (naive n) t = naive (n + t)
later (aware n) t = aware (n + t)

aged_later : (h : ℤ) (n m a : ℕ) → n ≤ m → is_aged h n a ≡ true → is_aged h m a ≡ true
aged_later (pos zero) n m a p h = cc
aged_later (pos (suc k)) n m a p h = ground (arith, p, h)
aged_later (negsuc k) n m a p h = cc

aged_now : (h : ℤ) (n : ℕ) → is_aged h n n ≡ false
aged_now (pos zero) n = refl
aged_now (pos (suc k)) n = ground arith
aged_now (negsuc k) n = refl

module _ (parse : String → Option Instant) where
  past_later :
      (t : Option Instant) (now : Instant) (d : ℕ)
      → is_past parse t now ≡ some true
      → is_past parse t (later now d) ≡ some true
  past_later none now d h = cc
  past_later (some (naive t)) (naive n) d h = ground (arith, h)
  past_later (some (aware t)) (naive n) d h = cc
  past_later (some (naive t)) (aware n) d h = cc
  past_later (some (aware t)) (aware n) d h = ground (arith, h)

  by_age-later :
      (s e : ℤ) (n m a : ℕ) → n ≤ m → rank (by_age parse s e n a) ≤ rank (by_age parse s e m a)
  by_age-later s e n m a p = ground (arith, aged_later s n m a p, aged_later e n m a p)

  by_age_bound : (s e : ℤ) (n a : ℕ) → rank (by_age parse s e n a) ≤ 2
  by_age_bound s e n a = ground arith

  by_age-now : (s e : ℤ) (n : ℕ) → by_age parse s e n n ≡ fresh
  by_age-now s e n = ground (arith, aged_now s n, aged_now e n)

  abbrev aged_status : Option (ℕ × ℕ) → ℤ → ℤ → Option KnowledgeItemStatus
  aged_status none s e = none
  aged_status (some (n, a)) s e = some (by_age parse s e n a)

  aged_status-later :
      (t : Option Instant) (now : Instant) (d : ℕ) (s e : ℤ) (a b : KnowledgeItemStatus)
      → aged_status (ticks now (or_now t now)) s e ≡ some a
      → aged_status (ticks (later now d) (or_now t (later now d))) s e ≡ some b
      → rank a ≤ rank b
  aged_status-later none (naive n) d s e a b h k = ground (arith, h, k, by_age-now s e n)
  aged_status-later none (aware n) d s e a b h k = ground (arith, h, k, by_age-now s e n)
  aged_status-later (some (naive t)) (naive n) d s e a b h k =
      ground (arith, h, k, by_age-later s e n (n + d) t (omega arith))
  aged_status-later (some (aware t)) (naive n) d s e a b h k = cc
  aged_status-later (some (naive t)) (aware n) d s e a b h k = cc
  aged_status-later (some (aware t)) (aware n) d s e a b h k =
      ground (arith, h, k, by_age-later s e n (n + d) t (omega arith))

  -- While the clock goes on, the status of an item never gets better: of fresh, stale, expired and
  -- quarantined, the later one is the same or stands further right.
  pub status-later :
      (item : KnowledgeItem) (s e : ℤ) (now : Instant) (d : ℕ) (a b : KnowledgeItemStatus)
      → evaluate_knowledge_item_status parse item s e now ≡ some a
      → evaluate_knowledge_item_status parse item s e (later now d) ≡ some b
      → rank a ≤ rank b
  unfolding evaluate_knowledge_item_status
  status-later item s e now d a b h k = ground (
    arith,
    h,
    k,
    past_later (parse_dt parse item.expires_at) now d,
    by_age_bound s e,
    aged_status-later
        (first_of (parse_dt parse item.observed_at)
          (first_of (parse_dt parse item.effective_at) (parse_dt parse item.captured_at)))
        now d s e a b,
  )
