-- ===== src/Controllability/Loop.antt =====
-- The supervisor in the loop with the plant, as a step relation.
use mathlib.Core.List.{Memᴰ}
use device_weave.Prelude.{
  ◌≡◌, sym, ◌∙◌, inl, inr, ◌⊎◌, Bool, true, false, some, List, any, arith, Bool-cases,
}
use device_weave.Controllability.{Plant, Equality, Move, mem, successors}
use device_weave.Controllability.Held.{
  IsHeld, IsHeld-stays, stays-forced, fails_on, select_nonempty, select_some,
}
use device_weave.Controllability.Fixpoint.{IsGreatest, mem_selected}
use device_weave.Controllability.Enabled.{enabled_stays, free_enabled, forced_enabled}
use device_weave.Controllability.Greatest.{synthesize_result, good_IsClosed}
use device_weave.Controllability.Synthesis.{
  Synthesis, Choice, synthesize, enabled_of, forcing_of, legal, is_chosen, reaches_bad, fate,
  is_forced, leaves, can_force,
}

module _ {S : Type 0} (k : Equality S) (p : Plant S) where
  -- An event of the plant that the supervisor enables.
  pub data Step (enabled : List (Choice S)) : S → S → Type 0 where
    take :
        {q : S} (m : Move S)
        → Memᴰ m (successors k p q)
        → is_chosen k p enabled q m.event.name ≡ true
        → Step enabled q m.target

  pub data Run (enabled : List (Choice S)) (q : S) : S → Type 0 where
    here : Run enabled q q
    next : {r t : S} → Run enabled q r → Step enabled r t → Run enabled q t

  -- Every event that the supervisor may not refuse is enabled, or it forces one.
  abbrev pub IsAdmitted : Bool → List (Choice S) → S → Type 0
  IsAdmitted f enabled q =
      ((m : Move S)
        → Memᴰ m (successors k p q)
        → m.event.controllable ≡ false
        → is_chosen k p enabled q m.event.name ≡ true)
      ⊎ ((f ≡ true)
          × ((m : Move S) × Memᴰ m (successors k p q)
              × (m.event.forcible ≡ true)
              × (is_chosen k p enabled q m.event.name ≡ true)))

  good_IsAdmitted :
      (f : Bool) (good : List S) (q : S)
      → mem k q good ≡ true
      → IsHeld k p f (λ x. mem k x good) q
      → IsAdmitted f (enabled_of k p f good) q
  unfolding leaves can_force forcing_of
  good_IsAdmitted f good q g h = elim (Bool-cases (any (leaves k p good) (successors k p q))) [
    | inr closed ↦ inl (λ m i u. free_enabled k p f good q m g i closed (stays_in m i u closed))
    | inl escape ↦ forced_in escape h
  ]
    where
      stays_in :
          (m : Move S)
          → Memᴰ m (successors k p q)
          → m.event.controllable ≡ false
          → any (leaves k p good) (successors k p q) ≡ false
          → mem k m.target good ≡ true
      stays_in m i u closed =
          let o = fails_on (leaves k p good) (successors k p q) m closed i in ground arith

      refuted :
          (m : Move S)
          → leaves k p good m ≡ true
          → (m.event.controllable ≡ false → mem k m.target good ≡ true)
          → IsAdmitted f (enabled_of k p f good) q
      refuted m c h = ground (arith, h)

      forcing_here :
          any (leaves k p good) (successors k p q) ≡ true → mem k q (forcing_of k p f good) ≡ true
      forcing_here escape =
          let a = stays-forced k p f good q escape (IsHeld-stays k p f good q h) in
          let e = mem_selected k (λ x. is_forced (fate k p f good x)) q good in ground arith

      can :
          (m : Move S)
          → m.event.forcible ≡ true
          → mem k m.target good ≡ true
          → can_force k p good m ≡ true
      can m c t = ground arith

      forced_in :
          any (leaves k p good) (successors k p q) ≡ true
          → IsHeld k p f (λ x. mem k x good) q
          → IsAdmitted f (enabled_of k p f good) q
      forced_in escape (inl h) =
          let (m, ms, e) = select_nonempty (leaves k p good) (successors k p q) escape in
          let (i, c) = select_some (leaves k p good) (successors k p q) ms m e in
          refuted m c (h m i)
      forced_in escape (inr (u, (m, i, c, t))) =
          inr (
            u,
            (m, i, c, forced_enabled k p f good q m g (forcing_here escape) escape i (can m c t)),
          )

  good_after :
      (f : Bool) (good : List S) {q : S}
      → mem k p.initial good ≡ true
      → Run (enabled_of k p f good) p.initial q
      → mem k q good ≡ true
  good_after f good g here = g
  good_after f good g (next r (take m i on)) = enabled_stays k p f good _ m i on

  safe_of :
      (f : Bool) (bad : List S) (s : Synthesis S) (q : S)
      → IsGreatest k p f (legal k p bad) s.good
      → s.closed_loop_safe ≡ mem k p.initial s.good
      → s.enabled ≡ enabled_of k p f s.good
      → reaches_bad k p s ≡ false
      → Run s.enabled p.initial q
      → (mem k q bad ≡ false) × IsAdmitted f s.enabled q
  unfolding reaches_bad
  safe_of f bad s q g v u n r =
      let i : mem k p.initial s.good ≡ true = ground arith in
      let r' : Run (enabled_of k p f s.good) p.initial q = rw u at r in
      let m = good_after f s.good i r' in
      let c = (good_IsClosed k p f s.good bad g.within).clear q m in
      let a = good_IsAdmitted f s.good q m (g.held q m) in (c, rw u a)

  -- Where the code finds that a supervisor keeps the plant safe, no run of the plant under that
  -- supervisor comes to a bad state, and at each state of such a run every uncontrollable event is
  -- enabled, or else, where forcing is used, some forcible event is.
  pub synthesize_safe :
      (f : Bool) (bad : List S) (s : Synthesis S) (q : S)
      → synthesize k p f bad ≡ some s
      → reaches_bad k p s ≡ false
      → Run s.enabled p.initial q
      → (mem k q bad ≡ false) × IsAdmitted f s.enabled q
  synthesize_safe f bad s q e n r =
      let (t, e', g, v, u, _) = synthesize_result k p f bad in
      let same : some t ≡ some s = sym e' ∙ e in
      let same' : t ≡ s = cc same in
      safe_of f bad s q (rw same' at g) (rw same' at v) (rw same' at u) n r
