-- ===== src/Events/Chain.antt =====
-- mas/decision_events.py: the chain of hashes that `append` builds and `verify_chain` checks.
use v.Prelude.{
  ℕ, suc, String, ◌≡◌, refl, true, false, ◌||◌, subst, Option, none, some, List, [], ◌∷◌, ◌++◌,
  str_eq, arith, eq_iff, Bool-cases, Option-cases, inl, inr,
}
use v.Prelude.Dict.{get, get-put}
use v.Events.Event.{Event, Body, compute_hash}
use v.Events.Log.{
  absent, Link, World, NewEvent, events_of, last_link, link_of, fetch_last_event, prev_hash_of,
  new_event, append, store_event, break_from, verify_chain,
}

module _ {F : Type 0} where
  -- The hash of the last event, or that before the first.
  abbrev pub end_hash : String → List (Event F) → String
  end_hash h [] = h
  end_hash h (e ∷ es) = end_hash e.event_hash es

  last_link-end : (es : List (Event F)) → prev_hash_of (last_link es) ≡ end_hash "" es
  last_link-end [] = refl
  last_link-end (e ∷ []) = refl
  last_link-end (e ∷ f ∷ es) = last_link-end (f ∷ es)

  end_hash-append :
      (h : String) (es : List (Event F)) (e : Event F) → end_hash h (es ++ e ∷ []) ≡ e.event_hash
  end_hash-append h [] e = refl
  end_hash-append h (f ∷ es) e = end_hash-append f.event_hash es e

module _ {F : Type 0} (sha256 : String → String) (dumps : Body F → String) where
  -- The event's hash is that of its body after `prev_hash`.
  abbrev pub IsHashed : Event F → String → Type 0
  IsHashed e prev_hash =
      e.event_hash ≡ compute_hash sha256 dumps (record e { event_hash = "" }) prev_hash

  break_from-append :
      (i : ℕ) (h : String) (es : List (Event F)) (e : Event F)
      → break_from sha256 dumps i h es ≡ none
      → IsHashed e (end_hash h es)
      → break_from sha256 dumps i h (es ++ e ∷ []) ≡ none
  unfolding break_from
  break_from-append i h [] e k p =
      ground
        (arith, p, eq_iff e.event_hash (compute_hash sha256 dumps (record e { event_hash = "" }) h))
  break_from-append i h (f ∷ es) e k p =
      ground (arith, k, p, break_from-append (suc i) f.event_hash es e)

  module _ (iso : ℕ → String) where
    new_event-IsHashed :
        (now : ℕ) (id : String) (n : NewEvent F) (prev : Option Link)
        → IsHashed (new_event sha256 dumps iso now id n prev) (prev_hash_of prev)
    unfolding new_event
    new_event-IsHashed now id n prev = refl

    -- The memory's events of a project form a chain, and the cached link is its end.
    pub record IsChained (w : World F) (p : String) : Type 0 where
      pub verified : verify_chain sha256 dumps w p ≡ none
      pub cached :
          (l : Link)
          → get w.memory.last_event p ≡ some l
          → l.event_hash ≡ end_hash "" (events_of w.memory p)

    fetched :
        (w : World F) (p : String)
        → IsChained w p
        → ((fetch_last_event absent w p).0 ≡ w.memory)
          × (prev_hash_of (fetch_last_event absent w p).1 ≡ end_hash "" (events_of w.memory p))
    unfolding fetch_last_event
    fetched w p c = elim (Option-cases (get w.memory.last_event p)) [
      | inl missing ↦
          (ground (arith, missing), ground (arith, missing, last_link-end (events_of w.memory p)))
      | inr (l, found) ↦ (ground (arith, found), ground (arith, found, c.cached l found))
    ]

    stored-IsChained :
        (now : ℕ) (w : World F) (p : String) (e : Event F)
        → IsChained w p
        → (e.project_id ≡ p → IsHashed e (end_hash "" (events_of w.memory p)))
        → IsChained (store_event absent now w.memory w.rows e) p
    unfolding verify_chain
    stored-IsChained now w p e c h = elim (Bool-cases (str_eq e.project_id p)) [
      | inl same ↦ record {
        verified = ground (
          arith,
          same,
          eq_iff e.project_id p,
          get-put w.memory.mem_events e.project_id p (events_of w.memory e.project_id ++ e ∷ []),
          c.verified,
          h,
          break_from-append 0 "" (events_of w.memory p) e,
        );
        cached = λ l k. ground (
          arith,
          same,
          k,
          eq_iff e.project_id p,
          get-put w.memory.mem_events e.project_id p (events_of w.memory e.project_id ++ e ∷ []),
          get-put w.memory.last_event e.project_id p (link_of e),
          end_hash-append "" (events_of w.memory p) e,
        );
      }
      | inr other ↦ record {
        verified = ground (
          arith,
          other,
          get-put w.memory.mem_events e.project_id p (events_of w.memory e.project_id ++ e ∷ []),
          c.verified,
        );
        cached = λ l k. ground (
          arith,
          other,
          k,
          get-put w.memory.mem_events e.project_id p (events_of w.memory e.project_id ++ e ∷ []),
          get-put w.memory.last_event e.project_id p (link_of e),
          c.cached l,
        );
      }
    ]

    append-IsChained :
        (now : ℕ) (id : String) (w : World F) (n : NewEvent F) (p : String)
        → ((q : String) → IsChained w q)
        → IsChained (append sha256 dumps iso absent absent now id w n).0 p
    unfolding append
    append-IsChained now id w n p c =
        elim (Bool-cases (str_eq n.project_id "" || str_eq n.event_type "")) [
          | inl refused ↦ subst (λ (v : World F). IsChained v p) (unchanged refused) (c p)
          | inr taken ↦
              subst (λ (v : World F). IsChained v p) (written taken)
                (stored-IsChained now w p e (c p) hashed)
        ]
      where
        prev : Option Link
        prev = (fetch_last_event absent w n.project_id).1

        e : Event F
        e = new_event sha256 dumps iso now id n prev

        unchanged :
            (str_eq n.project_id "" || str_eq n.event_type "") ≡ true
            → w ≡ (append sha256 dumps iso absent absent now id w n).0
        unchanged h = ground (arith, h)

        written :
            (str_eq n.project_id "" || str_eq n.event_type "") ≡ false
            → store_event absent now w.memory w.rows e
              ≡ (append sha256 dumps iso absent absent now id w n).0
        written h = ground (arith, h, fetched w n.project_id (c n.project_id))

        hashed : e.project_id ≡ p → IsHashed e (end_hash "" (events_of w.memory p))
        hashed h =
            ground
              (arith, h, fetched w n.project_id (c n.project_id), new_event-IsHashed now id n prev)

    -- One call of `append` in a process without a database.
    pub record Call : Type 0 where
      pub now : ℕ
      pub new_id : String
      pub event : NewEvent F

    abbrev pub append_all : World F → List Call → World F
    append_all w [] = w
    append_all w (k ∷ ks) =
        append_all (append sha256 dumps iso absent absent k.now k.new_id w k.event).0 ks

    all-IsChained :
        (w : World F) (ks : List Call)
        → ((q : String) → IsChained w q)
        → (p : String) → IsChained (append_all w ks) p
    all-IsChained w [] c p = c p
    all-IsChained w (k ∷ ks) c p =
        all-IsChained (append sha256 dumps iso absent absent k.now k.new_id w k.event).0 ks
          (λ q. append-IsChained k.now k.new_id w k.event q c) p

    -- A process without a database and with an empty memory appends events of any projects, in any
    -- order: whatever they are, `verify_chain` finds every project's chain unbroken.
    pub verify_chain-append :
        (w : World F) (ks : List Call) (p : String)
        → w.memory.mem_events ≡ []
        → w.memory.last_event ≡ []
        → verify_chain sha256 dumps (append_all w ks) p ≡ none
    unfolding verify_chain break_from get
    verify_chain-append w ks p h k =
        (all-IsChained w ks
          (λ q. record { verified = ground (arith, h); cached = λ l e. ground (arith, e, k) })
          p).verified
