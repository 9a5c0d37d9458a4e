-- ===== src/Generations/Coherent.antt =====
-- mas/state_coherence.py: the invariant of the tables of generations.
use v.Prelude.{
  String, true, false, some, List, [], ◌∷◌, ◌++◌, ◌≡◌, sym, ap, subst, ◌∙◌, arith, eq_iff, All,
}
use v.Generations.Tables.{
  is_candidate, Generation, CurrentBinding, Database, find_generation, replace, has_shape,
  guard_current_binding,
}
use v.Generations.Rows.{
  find-replace, find-snoc, guard-replace, guard-snoc, shape-replace, shape-snoc, Single,
  Single-upsert, All-upsert,
}
use v.Generations.Steps.{Reach, here, inserted, updated, bound_to}

module _ {F : Type 0} where
  -- Every row has the instants of its status, every scope has one current generation at most, and
  -- that one is an accepted generation of the scope.
  pub record IsCoherent (db : Database F) : Type 0 where
    pub shaped : All (λ g. has_shape g ≡ true) db.generations
    pub single : Single db.current
    pub bound : All (λ b. guard_current_binding db.generations b ≡ true) db.current

  every_binding :
      (rows new : List (Generation F)) (bs : List CurrentBinding)
      → ((b : CurrentBinding)
          → guard_current_binding rows b ≡ true
          → guard_current_binding new b ≡ true)
      → All (λ b. guard_current_binding rows b ≡ true) bs
      → All (λ b. guard_current_binding new b ≡ true) bs
  every_binding rows new [] k h = tt
  every_binding rows new (b ∷ bs) k h = (k b h.0, every_binding rows new bs k h.1)

  pub IsCoherent-Reach : (db d : Database F) → Reach db d → IsCoherent db → IsCoherent d
  IsCoherent-Reach db d here h = h
  IsCoherent-Reach db d (inserted c g r f s e) h =
      let k = IsCoherent-Reach db c r h in
      subst IsCoherent (sym e) (record {
        shaped = shape-snoc c.generations g k.shaped s;
        single = k.single;
        bound =
            every_binding c.generations (c.generations ++ g ∷ []) c.current
              (λ b x. guard-snoc c.generations g b x) k.bound;
      })
  IsCoherent-Reach db d (updated c old new r f was s e) h =
      let k = IsCoherent-Reach db c r h in
      subst IsCoherent (sym e) (record {
        shaped = shape-replace c.generations new k.shaped s;
        single = k.single;
        bound =
            every_binding c.generations (replace c.generations new) c.current
              (λ b x. guard-replace c.generations old new b f was x) k.bound;
      })
  IsCoherent-Reach db d (bound_to c b r g e) h =
      let k = IsCoherent-Reach db c r h in
      subst IsCoherent (sym e) (record {
        shaped = k.shaped;
        single = Single-upsert c.current b k.single;
        bound =
            All-upsert (λ x. guard_current_binding c.generations x ≡ true) c.current b k.bound g;
      })

  -- A row that is no candidate any more.
  pub Settled-Reach :
      (db d : Database F) (id : String) (g : Generation F)
      → Reach db d
      → is_candidate g.lifecycle_status ≡ false
      → find_generation db.generations id ≡ some g
      → find_generation d.generations id ≡ some g
  Settled-Reach db d id g here n h = h
  Settled-Reach db d id g (inserted c x r f s e) n h =
      let k = Settled-Reach db c id g r n h in
      ap (λ (y : Database F). find_generation y.generations id) e
      ∙ (find-snoc c.generations x id ∙ ground (arith, k))
  Settled-Reach db d id g (updated c old new r f was s e) n h =
      let k = Settled-Reach db c id g r n h in
      ap (λ (y : Database F). find_generation y.generations id) e
      ∙ (find-replace c.generations new id ∙ ground (arith, k, f, was, n, eq_iff new.id id))
  Settled-Reach db d id g (bound_to c b r x e) n h =
      ap (λ (y : Database F). find_generation y.generations id) e ∙ Settled-Reach db c id g r n h
