-- ===== src/Events/History.antt =====
-- mas/decision_events.py: what the replayed state says of the log.
use v.Prelude.{
  if-elim, if◌then◌else◌, ℕ, zero, suc, ◌≤◌, String, ◌≡◌, ◌≢◌, ◌↔◌, refl, sym, ap, ◌∙◌, Bool, true,
  false, some, List, [], ◌∷◌, ◌++◌, str_eq, length, any, arith, eq_iff, Bool-cases, inl, inr,
}
use v.Prelude.Dict.{get}
use v.Events.Event.{Event}
use v.Events.Log.{Reach, absent, World, list_events, take, events_of, filtered}
use v.Events.Replay.{
  phase_of, text_of, Projection, empty_projection, apply_event, replay, up_to, cut, state_from,
  state_at,
}

module _ {F : Type 0} where
  abbrev pub kills : Event F → Bool
  kills e = str_eq e.event_type "policy.kill_switch_triggered"

  -- What an event does to the kill switch of a projection.
  record Effect (p : Projection) (e : Event F) (v : Projection) : Type 0 where
    kills_it : kills e ≡ true → v.kill_switch_active ≡ some true
    keeps_it : kills e ≡ false → v.kill_switch_active ≡ p.kill_switch_active

  other-Effect :
      {p v : Projection} {e : Event F} (t : String)
      → str_eq e.event_type t ≡ true
      → str_eq t "policy.kill_switch_triggered" ≡ false
      → v.kill_switch_active ≡ p.kill_switch_active
      → Effect p e v
  other-Effect {p} {v} {e} t c n s = record {
    kills_it = λ k. absurd (
        ground (
          arith,
          c,
          n,
          k,
          eq_iff e.event_type t,
          eq_iff e.event_type "policy.kill_switch_triggered",
          eq_iff t "policy.kill_switch_triggered",
        ));
    keeps_it = λ k. s;
  }

  later-Effect :
      {p v : Projection} {e : Event F}
      → kills e ≡ false
      → v.kill_switch_active ≡ p.kill_switch_active
      → Effect p e v
  later-Effect n s = record { kills_it = λ k. absurd (ground (arith, n, k)); keeps_it = λ k. s }

  phase-Effect :
      {p : Projection} (v : Projection) {e : Event F} (t : String) (blank : Bool)
      → str_eq e.event_type t ≡ true
      → str_eq t "policy.kill_switch_triggered" ≡ false
      → v.kill_switch_active ≡ p.kill_switch_active
      → Effect p e (if blank then p else v)
  phase-Effect v t true c n s = other-Effect t c n refl
  phase-Effect v t false c n s = other-Effect t c n s

  apply-Effect : (p : Projection) (e : Event F) → Effect p e (apply_event p e)
  unfolding apply_event
  apply-Effect p e =
      if-elim (Effect p e) _ _ (str_eq e.event_type "project.created")
        (λ c. other-Effect "project.created" c refl refl)
        (λ a.
          if-elim (Effect p e) _ _ (str_eq e.event_type "phase.started")
            (λ c.
              phase-Effect _ "phase.started" (str_eq (phase_of e.payload e.phase) "") c refl refl)
            (λ b.
              if-elim (Effect p e) _ _ (str_eq e.event_type "phase.completed")
                (λ c.
                  phase-Effect _ "phase.completed" (str_eq (phase_of e.payload e.phase) "") c refl
                    refl)
                (λ c.
                  if-elim (Effect p e) _ _ (str_eq e.event_type "phase.failed")
                    (λ c.
                      phase-Effect _ "phase.failed" (str_eq (phase_of e.payload e.phase) "") c refl
                        refl)
                    (λ d.
                      if-elim (Effect p e) _ _ (kills e)
                        (λ k. record {
                          kills_it = λ m. refl;
                          keeps_it = λ n. absurd (ground (arith, k, n));
                        })
                        (λ n.
                          if-elim (Effect p e) _ _
                            (str_eq e.event_type "policy.risk_classification_set")
                            (λ c. later-Effect n refl)
                            (λ f.
                              if-elim (Effect p e) _ _
                                (str_eq e.event_type "policy.approval_granted")
                                (λ c.
                                  if-elim (Effect p e) _ _
                                    (str_eq (text_of (get e.payload "action")) "")
                                    (λ d. later-Effect n refl) (λ d. later-Effect n refl))
                                (λ g.
                                  if-elim (Effect p e) _ _
                                    (str_eq e.event_type "policy.budget_caps_updated")
                                    (λ c. later-Effect n refl)
                                    (λ h.
                                      if-elim (Effect p e) _ _
                                        (str_eq e.event_type "outcome.recorded")
                                        (λ c. later-Effect n refl)
                                        (λ c. later-Effect n refl)))))))))

  apply-killed :
      (p : Projection) (e : Event F)
      → p.kill_switch_active ≡ some true
      → (apply_event p e).kill_switch_active ≡ some true
  apply-killed p e h = elim (Bool-cases (kills e)) [
    | inl k ↦ (apply-Effect p e).kills_it k
    | inr n ↦ (apply-Effect p e).keeps_it n ∙ h
  ]

  replay-killed :
      (p : Projection) (es : List (Event F))
      → p.kill_switch_active ≡ some true
      → (replay p es).kill_switch_active ≡ some true
  unfolding replay
  replay-killed p [] h = h
  replay-killed p (e ∷ es) h = replay-killed (apply_event p e) es (apply-killed p e h)

  replay-kill :
      (p : Projection) (es : List (Event F))
      → (any kills es ≡ true → (replay p es).kill_switch_active ≡ some true)
        × (any kills es ≡ false → (replay p es).kill_switch_active ≡ p.kill_switch_active)
  unfolding replay
  replay-kill p [] = (λ h. cc, λ h. refl)
  replay-kill p (e ∷ es) = elim (Bool-cases (kills e)) [
    | inl now ↦ (
      λ h. replay-killed (apply_event p e) es (((apply-Effect p e).kills_it now)),
      λ h. ground (arith, h, now),
    )
    | inr later ↦ (
      λ h. (replay-kill (apply_event p e) es).0 (ground (arith, h, later)),
      λ h.
          (replay-kill (apply_event p e) es).1 (ground (arith, h, later))
          ∙ (apply-Effect p e).keeps_it later,
    )
  ]

  -- The replayed state of a project says that the kill switch is active exactly if one of the events
  -- that it read, the boundary counted in, triggered it: later events never take it back, and no
  -- other event sets it.
  pub state_at-kill_iff :
      (reach : Reach) (w : World F) (project event_id at_time : String) (limit : ℕ)
      → ((state_at reach w project event_id at_time limit).projection.kill_switch_active
          ≡ some true)
        ↔ (any kills (cut event_id at_time (list_events reach w project "" "" limit)) ≡ true)
  unfolding state_at
  state_at-kill_iff reach w project event_id at_time limit =
      by_events (cut event_id at_time (list_events reach w project "" "" limit))
    where
      by_events :
          (es : List (Event F))
          → ((replay empty_projection es).kill_switch_active ≡ some true) ↔ (any kills es ≡ true)
      by_events es = elim (Bool-cases (any kills es)) [
        | inl there ↦ (λ h. there, (replay-kill empty_projection es).0)
        | inr nowhere ↦ (
          λ h. ground (arith, h, (replay-kill empty_projection es).1 nowhere),
          λ h. ground (arith, h, nowhere),
        )
      ]

  replay-append :
      (p : Projection) (es fs : List (Event F)) → replay p (es ++ fs) ≡ replay (replay p es) fs
  unfolding replay
  replay-append p [] fs = refl
  replay-append p (e ∷ es) fs = replay-append (apply_event p e) es fs

  take-append : (n : ℕ) (es fs : List (Event F)) → n ≤ length es → take n (es ++ fs) ≡ take n es
  take-append zero es fs h = refl
  take-append (suc n) [] fs h = absurd (omega arith)
  take-append (suc n) (e ∷ es) fs h = ap (λ xs. e ∷ xs) (take-append n es fs (omega arith))

  select-all : (es : List (Event F)) → filtered "" "" es ≡ es
  select-all [] = refl
  select-all (e ∷ es) = ground (arith, select-all es, eq_iff "" "")

  -- Without a boundary the replay reads the first `limit` events and no other: what is appended to a
  -- log of that length or longer never shows, also where it triggers the kill switch.
  pub state_at-limit :
      (v w : World F) (project : String) (more : List (Event F)) (limit : ℕ)
      → limit ≤ length (events_of v.memory project)
      → events_of w.memory project ≡ events_of v.memory project ++ more
      → state_at absent w project "" "" limit ≡ state_at absent v project "" "" limit
  unfolding state_at list_events
  state_at-limit v w project more limit h e =
      ap (λ es. state_from project (cut "" "" es))
        (ap (take limit) (select-all (events_of w.memory project) ∙ e)
          ∙ (take-append limit (events_of v.memory project) more h
              ∙ ap (take limit) (sym (select-all (events_of v.memory project)))))

  -- The first event of this id ends `before`.
  abbrev pub EndsAt : String → List (Event F) → Type 0
  EndsAt id [] = ⊥
  EndsAt id (e ∷ []) = e.event_id ≡ id
  EndsAt id (e ∷ f ∷ es) = (e.event_id ≢ id) × EndsAt id (f ∷ es)

  up_to-append :
      (id : String) (before after : List (Event F))
      → EndsAt id before
      → up_to id (before ++ after) ≡ before
  unfolding up_to
  up_to-append id [] after h = absurd h
  up_to-append id (e ∷ []) after h = ground (arith, h, eq_iff e.event_id id)
  up_to-append id (e ∷ f ∷ es) after h =
      ground (arith, h, eq_iff e.event_id id, up_to-append id (f ∷ es) after h.1)

  -- A replay up to an event, gone on with over the events behind it, gives the replay of them all.
  pub state_at-boundary :
      (reach : Reach) (w : World F) (project id : String) (limit : ℕ)
      (before after : List (Event F))
      → id ≢ ""
      → list_events reach w project "" "" limit ≡ before ++ after
      → EndsAt id before
      → (state_at reach w project "" "" limit).projection
        ≡ replay (state_at reach w project id "" limit).projection after
  unfolding state_at
  state_at-boundary reach w project id limit before after h e b = ground (
    arith,
    h,
    e,
    eq_iff id "",
    eq_iff "" "",
    up_to-append id before after b,
    replay-append empty_projection before after,
  )
