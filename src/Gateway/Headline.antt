-- ===== src/Gateway/Headline.antt =====
-- mas/runtime/provider_gateway.py: the category that a failed call reports, against its attempts.
use v.Prelude.{
  ℕ, String, Bool, true, false, List, [], ◌∷◌, ◌++◌, ◌≡◌, refl, not, ◌&&◌, str_eq, arith, eq_iff,
  if◌then◌else◌, if-elim,
}
use v.Prelude.Float.{FloatOps}
use v.Gateway.Types.{
  TextOps, Provider, anthropic, openai, provider_value, ModelConfig, Attempt, ProviderSelection,
  GatewayResponse, World,
}
use v.Gateway.Errors.{
  is_set, is_retryable, is_unusable, is_fallback_eligible, attempt_metadata, safe_error_message,
}
use v.Gateway.Attempt.{apply_usage, apply_selection_metadata}
use v.Gateway.Progress.{
  Candidate, Progress, Step, returned, again, next_candidate, note_failure, skip,
}
use v.Gateway.Calls.{success, final_error_response, failed, settle, headline, exhausted}

-- The category of the first attempt, of the last one, and of the first that was executed and failed.
unfoldable pub first_type : List Attempt → String
first_type [] = ""
first_type (a ∷ rest) = a.error_type

unfoldable pub last_type : List Attempt → String
last_type [] = "provider_unavailable"
last_type (a ∷ []) = a.error_type
last_type (a ∷ b ∷ rest) = last_type (b ∷ rest)

unfoldable pub called_type : List Attempt → String
called_type [] = ""
called_type (a ∷ rest) =
    let later = called_type rest in
    if str_eq a.status "failed" && is_set a.error_type then a.error_type else later

-- What a call that is not answered reports of its attempts.
unfoldable pub reported : List Attempt → String
unfolding first_type last_type called_type
reported attempts =
    if not (is_fallback_eligible (last_type attempts))
    then last_type attempts
    else if str_eq (first_type attempts) "quota_exceeded"
    then "quota_exceeded"
    else if is_unusable (called_type attempts)
    then called_type attempts
    else last_type attempts

abbrev is_empty : List Attempt → Bool
is_empty [] = true
is_empty (a ∷ rest) = false

first-snoc :
    (xs : List Attempt) (a : Attempt)
    → first_type (xs ++ a ∷ []) ≡ (if is_empty xs then a.error_type else first_type xs)
unfolding first_type
first-snoc [] a = refl
first-snoc (b ∷ xs) a = refl

last-snoc : (xs : List Attempt) (a : Attempt) → last_type (xs ++ a ∷ []) ≡ a.error_type
unfolding last_type
last-snoc [] a = refl
last-snoc (b ∷ []) a = refl
last-snoc (b ∷ c ∷ xs) a = last-snoc (c ∷ xs) a

called-snoc :
    (xs : List Attempt) (a : Attempt)
    → called_type (xs ++ a ∷ []) ≡ (
        if is_set (called_type xs)
        then called_type xs
        else if str_eq a.status "failed" && is_set a.error_type
        then a.error_type
        else "")
unfolding called_type
called-snoc [] a = ground arith
called-snoc (b ∷ xs) a = ground (arith, called-snoc xs a)

empty-snoc : (xs : List Attempt) (a : Attempt) → is_empty (xs ++ a ∷ []) ≡ false
empty-snoc [] a = refl
empty-snoc (b ∷ xs) a = refl

module _ {F : Type 0} ⦃fl : FloatOps F⦄ where
  -- The local variables of a call that goes on, against its attempts.
  pub record Told (p : Progress F) : Type 0 where
    pub first : p.failed_error_type ≡ first_type p.attempts
    pub seen : is_set p.failed_provider ≡ not (is_empty p.attempts)
    pub last : p.last_error_type ≡ last_type p.attempts
    pub called : p.attempted_error_type ≡ called_type p.attempts
    pub eligible : is_fallback_eligible p.last_error_type ≡ true

  -- A failed response against its attempts.
  pub record Reported (r : GatewayResponse F) : Type 0 where
    pub error_type : r.error_type ≡ reported r.attempts
    pub failed_error_type : r.failed_error_type ≡ first_type r.attempts

  abbrev pub Telling : Step F → Type 0
  Telling (returned p r) = is_set r.error ≡ true → Reported r
  Telling (again p) = Told p
  Telling (next_candidate p) = Told p

  -- A failure is noted beside what was noted before, whether it ends the call or not.
  record Noted (p : Progress F) : Type 0 where
    first : p.failed_error_type ≡ first_type p.attempts
    seen : is_set p.failed_provider ≡ not (is_empty p.attempts)
    last : p.last_error_type ≡ last_type p.attempts

  note-Noted :
      (p : Progress F) (config : ModelConfig F) (selection : ProviderSelection)
      (status category skip_reason error : String)
      → Told p
      → Noted (note_failure p (config, selection) status category skip_reason error)
  unfolding note_failure
  note-Noted p config selection status category skip_reason error h =
      let a = attempt_metadata config selection status category skip_reason in
      let empty = empty-snoc p.attempts a in
      record {
        first = ground (arith, h.first, h.seen, first-snoc p.attempts a);
        seen = ground (arith, h.first, h.seen, empty, named config.provider);
        last = ground (arith, last-snoc p.attempts a);
      }
    where
      named : (q : Provider) → is_set (provider_value q) ≡ true
      named anthropic = refl
      named openai = refl

  module _ (ops : TextOps) (w : World F) (first : Candidate F) where
    pub skip-Told :
        (p : Progress F) (config : ModelConfig F) (selection : ProviderSelection)
        (skip_reason : String)
        → Told p
        → Told (skip ops p (config, selection) skip_reason)
    unfolding skip note_failure
    skip-Told p config selection skip_reason h =
        let a = attempt_metadata config selection "skipped" "provider_unavailable" skip_reason in
        let noted =
          note-Noted p config selection "skipped" "provider_unavailable" skip_reason
            (safe_error_message ops "provider_unavailable" (provider_value config.provider)
              config.model "")
            h in
        record {
          first = noted.first;
          seen = noted.seen;
          last = noted.last;
          called =
              ground
                (arith, h.called, called-snoc p.attempts a, eq_iff (called_type p.attempts) "");
          eligible = refl;
        }

    failed-Noted :
        (p : Progress F) (config : ModelConfig F) (selection : ProviderSelection)
        (r : GatewayResponse F)
        → Told p
        → Noted (failed ops w first p (config, selection) r)
          × ((failed ops w first p (config, selection) r).attempted_error_type
              ≡ called_type (failed ops w first p (config, selection) r).attempts)
          × ((failed ops w first p (config, selection) r).last_error_type ≡ r.error_type)
    unfolding failed note_failure
    failed-Noted p config selection r h =
        let a = attempt_metadata config selection "failed" r.error_type "" in
        let noted = note-Noted p config selection "failed" r.error_type "" r.error h in
        (
          record { first = noted.first; seen = noted.seen; last = noted.last },
          ground (arith, h.called, called-snoc p.attempts a, eq_iff r.error_type ""),
          refl,
        )

    final-Reported :
        (p : Progress F) (r : GatewayResponse F)
        → Noted p
        → p.last_error_type ≡ r.error_type
        → is_fallback_eligible r.error_type ≡ false
        → Reported (final_error_response ops w first p r)
    unfolding final_error_response apply_usage apply_selection_metadata reported
    final-Reported p r h e f = record {
      error_type = ground (arith, h.last, e, f);
      failed_error_type = h.first;
    }

    pub exhausted-Reported : (p : Progress F) → Told p → Reported (exhausted ops w first p)
    unfolding exhausted headline apply_usage reported
    exhausted-Reported p h = record {
      error_type = ground (arith, h.first, h.last, h.called, h.eligible);
      failed_error_type = h.first;
    }

    pub settle-Telling :
        (p : Progress F) (index : ℕ) (config : ModelConfig F) (selection : ProviderSelection)
        (r : GatewayResponse F)
        → Told p
        → Telling (settle ops w first index (config, selection) p r)
    unfolding settle success apply_usage apply_selection_metadata
    settle-Telling p index config selection r h =
        let after = failed ops w first p (config, selection) r in
        let noted = failed-Noted p config selection r h in
        if-elim Telling _ _ (not (is_set r.error)) (λ e f. absurd (ground (arith, e, f)))
          (λ e.
            if-elim Telling _ _ (not (is_fallback_eligible r.error_type))
              (λ f g.
                final-Reported after (record r { retryable = is_retryable r.error_type }) noted.0
                  noted.2 (ground (arith, f)))
              (λ f.
                let told : Told after = record {
                  first = noted.0.first;
                  seen = noted.0.seen;
                  last = noted.0.last;
                  called = noted.1;
                  eligible = ground (arith, f, noted.2);
                } in
                if-elim Telling _ _ (is_retryable r.error_type) (λ g. told) (λ g. told)))
