-- ===== src/Events/Tamper.antt =====
-- mas/decision_events.py: what a verified chain fixes, and when a chain breaks that nobody changed.
use v.Prelude.{ℕ, suc, String, ◌≡◌, ◌≢◌, none, some, List, [], ◌∷◌, length, arith, eq_iff}
use v.Prelude.Dict.{get, get-put}
use v.Events.Event.{Event, Body, body_of, compute_hash}
use v.Events.Log.{
  Reach, faulty, Link, World, NewEvent, events_of, fetch_last_event, new_event, unhashed, append,
  break_from, verify_chain,
}
use v.Events.Chain.{end_hash}

module _ {F : Type 0} (sha256 : String → String) (dumps : Body F → String) where
  -- Where two logs, after these hashes, have an event at one place, the inputs of their two hashes
  -- do not collide: equal hashes come of equal bodies and equal earlier hashes.
  abbrev pub NoCollision : String → String → List (Event F) → List (Event F) → Type 0
  NoCollision h k (e ∷ es) (f ∷ fs) =
      (compute_hash sha256 dumps e h ≡ compute_hash sha256 dumps f k
        → (h ≡ k) × (body_of e ≡ body_of f))
      × NoCollision e.event_hash f.event_hash es fs
  NoCollision h k _ _ = Unit {0}

  -- The bodies and the hashes agree, event by event.
  abbrev pub SameLog : List (Event F) → List (Event F) → Type 0
  SameLog [] [] = Unit
  SameLog (e ∷ es) (f ∷ fs) =
      (body_of e ≡ body_of f) × (e.event_hash ≡ f.event_hash) × SameLog es fs
  SameLog _ _ = ⊥

  same_from :
      (i j : ℕ) (h k : String) (es fs : List (Event F))
      → length es ≡ length fs
      → NoCollision h k es fs
      → break_from sha256 dumps i h es ≡ none
      → break_from sha256 dumps j k fs ≡ none
      → end_hash h es ≡ end_hash k fs
      → (h ≡ k) × SameLog es fs
  unfolding break_from compute_hash
  same_from i j h k [] [] l n a b c = (c, tt)
  same_from i j h k [] (f ∷ fs) l n a b c = absurd (ground arith)
  same_from i j h k (e ∷ es) [] l n a b c = absurd (ground arith)
  same_from i j h k (e ∷ es) (f ∷ fs) l n a b c =
      let rest =
        same_from (suc i) (suc j) e.event_hash f.event_hash es fs (ground (arith, l)) n.1
          (ground (arith, a)) (ground (arith, b)) c in
      let made = eq_iff e.event_hash (compute_hash sha256 dumps (record e { event_hash = "" }) h) in
      let made' =
        eq_iff f.event_hash (compute_hash sha256 dumps (record f { event_hash = "" }) k) in
      let heads = n.0 (ground (arith, a, b, made, made', rest)) in
      (heads.0, (heads.1, rest.0, rest.1))

  -- Two logs of one length that `verify_chain` accepts and that end in the same hash are the same,
  -- event by event, unless two of their hashes collide: nobody can change, swap or replace an event
  -- of a log and keep its length and its last hash.
  pub verify_chain-same :
      (v w : World F) (p : String)
      → length (events_of v.memory p) ≡ length (events_of w.memory p)
      → NoCollision "" "" (events_of v.memory p) (events_of w.memory p)
      → verify_chain sha256 dumps v p ≡ none
      → verify_chain sha256 dumps w p ≡ none
      → end_hash "" (events_of v.memory p) ≡ end_hash "" (events_of w.memory p)
      → SameLog (events_of v.memory p) (events_of w.memory p)
  unfolding verify_chain
  verify_chain-same v w p l n a b c =
      (same_from 0 0 "" "" (events_of v.memory p) (events_of w.memory p) l n a b c).1

  -- If the last event of a project is cached from the database and none is in memory, an append
  -- whose INSERT fails keeps the event in memory, and `verify_chain` then reports a break at its
  -- index 0, unless its hash after the cached one collides with its hash after none.
  pub fallback_breaks :
      (iso : ℕ → String) (lookup : Reach) (now : ℕ) (id : String) (w : World F) (n : NewEvent F)
      (l : Link)
      → n.project_id ≢ ""
      → n.event_type ≢ ""
      → get w.memory.last_event n.project_id ≡ some l
      → events_of w.memory n.project_id ≡ []
      → compute_hash sha256 dumps (unhashed sha256 dumps iso now id n (some l)) l.event_hash
        ≢ compute_hash sha256 dumps (unhashed sha256 dumps iso now id n (some l)) ""
      → verify_chain sha256 dumps (append sha256 dumps iso lookup faulty now id w n).0 n.project_id
        ≡ some 0
  unfolding verify_chain break_from append fetch_last_event new_event
  fallback_breaks iso lookup now id w n l a b c e h = ground (
    arith,
    a,
    b,
    c,
    e,
    h,
    eq_iff n.project_id "",
    eq_iff n.event_type "",
    eq_iff n.project_id n.project_id,
    eq_iff (compute_hash sha256 dumps (unhashed sha256 dumps iso now id n (some l)) l.event_hash)
        (compute_hash sha256 dumps (unhashed sha256 dumps iso now id n (some l)) ""),
    get-put w.memory.mem_events n.project_id n.project_id (
        record (unhashed sha256 dumps iso now id n (some l)) {
          event_hash =
              compute_hash sha256 dumps (unhashed sha256 dumps iso now id n (some l)) l.event_hash;
        }
        ∷ []),
  )
