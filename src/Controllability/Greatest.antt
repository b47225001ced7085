-- ===== src/Controllability/Greatest.antt =====
-- What `_synthesize` gives: the loop of its passes, and the search over what it enables.
use device_weave.Prelude.{
  suc, ◌≡◌, refl, sym, ap, ◌∙◌, inl, inr, Bool, true, false, not, ◌&&◌, some, List, [], ◌∷◌, any,
  all, length, if◌then◌else◌, arith, Bool-cases, &&-eq-true, ◌≤◌,
}
use device_weave.Controllability.{Plant, Equality, mem}
use device_weave.Controllability.Fixpoint.{IsGreatest, fixpoint_settles, mem_selected}
use device_weave.Controllability.Search.{turns_end, turns_keep, IsClosed, size, unseen_bound}
use device_weave.Controllability.Enabled.{enabled_stays}
use device_weave.Controllability.Synthesis.{
  Synthesis, Kept, Choice, Walk, synthesize, settled, searched, synthesis_of, fixpoint, reach,
  turns, enabled_of, legal,
}

module _ {S : Type 0} (k : Equality S) (p : Plant S) where
  pub good_IsClosed :
      (f : Bool) (good bad : List S)
      → ((q : S) → mem k q good ≡ true → mem k q (legal k p bad) ≡ true)
      → IsClosed k p (enabled_of k p f good) bad (λ x. mem k x good)
  good_IsClosed f good bad within = record {
    clear = λ q g.
        let e = mem_selected k (λ x. not (mem k x bad)) q p.states in
        let l = within q g in ground arith;
    stay = λ q m g i on. enabled_stays k p f good q m i on;
  }

  reach_started :
      (enabled : List (Choice S)) (bad : List S)
      → mem k p.initial p.states ≡ true
      → reach k p enabled bad
        ≡ turns k p enabled bad
            (suc (length p.delta))
            (p.initial ∷ [])
            (p.initial ∷ [])
            (not (mem k p.initial bad))
  unfolding reach
  reach_started enabled bad a =
      let d : (not (any (λ c. k.eqb p.initial c.state) enabled) && not (mem k p.initial p.states))
          ≡ false =
        ground arith in
      simp d (simp a refl)

  reach_ends :
      (f : Bool) (good bad : List S)
      → (w : Walk S) × (reach k p (enabled_of k p f good) bad ≡ some w)
  unfolding reach
  reach_ends f good bad =
      let start = if mem k p.initial p.states then p.initial ∷ [] else [] in
      let (w, e) =
        turns_end k p (enabled_of k p f good) bad (suc (length p.delta)) start start
          (not (mem k p.initial bad)) (start_size (mem k p.initial p.states)) in
      elim (Bool-cases (
        not (any (λ c. k.eqb p.initial c.state) (enabled_of k p f good))
        && not (mem k p.initial p.states))) [
          | inl nowhere ↦ (record { stack = []; seen = []; safe = false }, simp nowhere refl)
          | inr somewhere ↦ (w, simp somewhere e)
        ]
    where
      start_size :
          (b : Bool)
          → let start = if b then p.initial ∷ [] else [] in
            size k p (enabled_of k p f good) bad start start ≤ suc (length p.delta)
      start_size b =
          let c = unseen_bound k p.delta (if b then p.initial ∷ [] else []) in ground arith

  reach_safe :
      (f : Bool) (good bad : List S) (w : Walk S)
      → ((q : S) → mem k q good ≡ true → mem k q (legal k p bad) ≡ true)
      → mem k p.initial good ≡ true
      → reach k p (enabled_of k p f good) bad ≡ some w
      → w.safe ≡ true
  reach_safe f good bad w within g e =
      let l = within p.initial g in
      let m = mem_selected k (λ x. not (mem k x bad)) p.initial p.states in
      let (a, b) = &&-eq-true (mem k p.initial p.states) (not (mem k p.initial bad)) (sym m ∙ l) in
      let e' = sym (reach_started (enabled_of k p f good) bad a) ∙ e in
      let h : all (λ x. mem k x good) (p.initial ∷ []) ≡ true = ground arith in
      turns_keep k p (enabled_of k p f good) bad (λ x. mem k x good)
        (good_IsClosed f good bad within) _ _ _ _ w h e'
      ∙ b

  verdict :
      (f : Bool) (kept : Kept S) (w : Walk S)
      → (mem k p.initial kept.good ≡ true → w.safe ≡ true)
      → (synthesis_of k p f kept w).closed_loop_safe ≡ mem k p.initial kept.good
  unfolding synthesis_of
  verdict f kept w h = ground (arith, h)

  result_of :
      (f : Bool) (bad : List S) (kept : Kept S)
      → fixpoint k p f (suc (length (legal k p bad))) (legal k p bad) [] ≡ some kept
      → IsGreatest k p f (legal k p bad) kept.good
      → (w : Walk S) × (reach k p (enabled_of k p f kept.good) bad ≡ some w)
      → (s : Synthesis S) × (synthesize k p f bad ≡ some s)
        × IsGreatest k p f (legal k p bad) s.good
        × (s.closed_loop_safe ≡ mem k p.initial s.good)
        × (s.enabled ≡ enabled_of k p f s.good)
        × (s.retains_legal ≡ all (λ q. mem k q s.good) (legal k p p.bad))
  unfolding synthesize settled searched synthesis_of
  result_of f bad kept e g (w, r) = (
    synthesis_of k p f kept w,
    ap (settled k p f bad) e ∙ ap (searched k p f kept) r,
    g,
    verdict f kept w (λ i. reach_safe f kept.good bad w g.within i r),
    refl,
    refl,
  )

  pub synthesize_result :
      (f : Bool) (bad : List S)
      → (s : Synthesis S) × (synthesize k p f bad ≡ some s)
        × IsGreatest k p f (legal k p bad) s.good
        × (s.closed_loop_safe ≡ mem k p.initial s.good)
        × (s.enabled ≡ enabled_of k p f s.good)
        × (s.retains_legal ≡ all (λ q. mem k q s.good) (legal k p p.bad))
  synthesize_result f bad =
      let (kept, e, g) =
        fixpoint_settles k p f (suc (length (legal k p bad))) (legal k p bad) [] (omega arith) in
      result_of f bad kept e g (reach_ends f kept.good bad)

  -- Every plant, set of bad states and mechanism has a synthesis. Its good states are the greatest
  -- set of legal states that the uncontrollable events do not leave, but where a forcible event
  -- that may be used stays in the set, and the closed loop is called safe just where the initial
  -- state is good.
  pub synthesize-IsGreatest :
      (f : Bool) (bad : List S)
      → (s : Synthesis S) × (synthesize k p f bad ≡ some s)
        × IsGreatest k p f (legal k p bad) s.good
        × (s.closed_loop_safe ≡ mem k p.initial s.good)
  synthesize-IsGreatest f bad = let (s, e, g, r, _, _) = synthesize_result f bad in (s, e, g, r)
