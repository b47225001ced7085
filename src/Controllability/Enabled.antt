-- ===== src/Controllability/Enabled.antt =====
-- What `_control` enables: an event of a kept state that stays among the kept states.
use mathlib.Core.List.{Memᴰ}
use device_weave.Prelude.{
  ◌≡◌, refl, sym, ap, ◌∙◌, inl, inr, Bool, true, false, ◌&&◌, some, List, [], ◌∷◌, any, select,
  arith, Bool-cases, Option-cases, any-append, mem-select, mem-select_of, &&-eq-true,
}
use device_weave.Prelude.Text.{String, str_eq, eq_iff}
use device_weave.Controllability.{
  Plant, Equality, Move, Edge, Event, mem, successors, moves, target_of,
}
use device_weave.Controllability.Synthesis.{
  Choice, choices, control, is_chosen, enabled_at, enabled_of, forcing_of, leaves, can_force,
}

module _ {S : Type 0} (k : Equality S) where
  -- A successor of a state is what `delta` has for its event.
  moves_found :
      (delta : List (Edge S)) (q : S) (evs : List Event) (m : Move S)
      → Memᴰ m (moves k delta q evs)
      → target_of k delta q m.event.name ≡ some m.target
  unfolding moves
  moves_found delta q [] m i = elim i [ ]
  moves_found delta q (ev ∷ evs) m i = elim (Option-cases (target_of k delta q ev.name)) [
    | inl e ↦ moves_found delta q evs m (simp e at i)
    | inr (t, e) ↦
        let j : Memᴰ m (record { event = ev; target = t } ∷ moves k delta q evs) = simp e at i in
        first t e j (moves_found delta q evs m)
  ]
    where
      first :
          (t : S)
          → target_of k delta q ev.name ≡ some t
          → Memᴰ m (record { event = ev; target = t } ∷ moves k delta q evs)
          → (Memᴰ m (moves k delta q evs) → target_of k delta q m.event.name ≡ some m.target)
          → target_of k delta q m.event.name ≡ some m.target
      first t e (Memᴰ.head h) ih = rw h e
      first t e (Memᴰ.tail j) ih = ih j

  abbrev is_choice : S → String → Choice S → Bool
  is_choice q name c = k.eqb q c.state && str_eq name c.event

  choice_of :
      (q r : S) (name : String) (ms : List (Move S))
      → any (is_choice q name) (choices r ms) ≡ true
      → (q ≡ r) × ((m : Move S) × Memᴰ m ms × (name ≡ m.event.name))
  choice_of q r name [] h = cc
  choice_of q r name (m ∷ ms) h = elim (Bool-cases (k.eqb q r && str_eq name m.event.name)) [
    | inl here ↦
        let (a, b) = &&-eq-true (k.eqb q r) (str_eq name m.event.name) here in
        ((k.eqb_iff q r).0 a, (m, Memᴰ.head refl, (eq_iff name m.event.name).0 b))
    | inr other ↦
        let (a, (x, i, b)) = choice_of q r name ms (simp other at h) in (a, (x, Memᴰ.tail i, b))
  ]

  of_choice :
      (q : S) (m : Move S) (ms : List (Move S))
      → Memᴰ m ms
      → any (is_choice q m.event.name) (choices q ms) ≡ true
  of_choice q m [] i = elim i [ ]
  of_choice q m (x ∷ ms) (Memᴰ.head e) =
      let a : k.eqb q q ≡ true = (k.eqb_iff q q).1 refl in
      let b : str_eq m.event.name x.event.name ≡ true =
        (eq_iff m.event.name x.event.name).1 (ap (λ y. y.event.name) e) in
      ground arith
  of_choice q m (x ∷ ms) (Memᴰ.tail i) = ground (arith, of_choice q m ms i)

module _ {S : Type 0} (k : Equality S) (p : Plant S) where
  in_control :
      (at' : S → List (Choice S)) (q : S) (name : String) (qs : List S)
      → any (is_choice k q name) (control k p at' qs) ≡ true
      → (r : S) × (mem k r qs ≡ true) × (any (is_choice k q name) (at' r) ≡ true)
  in_control at' q name [] h = cc
  in_control at' q name (x ∷ qs) h =
      let e = any-append (is_choice k q name) (at' x) (control k p at' qs) in
      elim (Bool-cases (any (is_choice k q name) (at' x))) [
        | inl here ↦ let r : k.eqb x x ≡ true = (k.eqb_iff x x).1 refl in (x, ground arith, here)
        | inr other ↦
            let (r, a, b) = in_control at' q name qs (ground arith) in (r, ground arith, b)
      ]

  of_control :
      (at' : S → List (Choice S)) (q : S) (name : String) (qs : List S)
      → mem k q qs ≡ true
      → any (is_choice k q name) (at' q) ≡ true
      → any (is_choice k q name) (control k p at' qs) ≡ true
  of_control at' q name [] i h = cc
  of_control at' q name (x ∷ qs) i h =
      let e = any-append (is_choice k q name) (at' x) (control k p at' qs) in
      elim (Bool-cases (k.eqb q x)) [
        | inl same ↦
            let e' : q ≡ x = (k.eqb_iff q x).0 same in
            let h' = ap (λ y. any (is_choice k q name) (at' y)) (sym e') ∙ h in ground arith
        | inr other ↦ ground (arith, of_control at' q name qs)
      ]

  -- What is enabled at a state is an event that stays.
  stays_at :
      (good forcing : List S) (q r : S) (name : String)
      → any (is_choice k q name) (enabled_at k p good forcing r) ≡ true
      → (q ≡ r)
        × ((m : Move S) × Memᴰ m (successors k p r)
            × (name ≡ m.event.name)
            × (mem k m.target good ≡ true))
  unfolding enabled_at can_force
  stays_at good forcing q r name h =
      elim (Bool-cases (mem k r forcing && any (leaves k p good) (successors k p r))) [
        | inl forced ↦
            let (e, (m, i, n)) =
              choice_of k q r name (select (can_force k p good) (successors k p r))
                (simp forced at h) in
            let (j, c) = mem-select (can_force k p good) (successors k p r) m i in
            (e, (m, j, n, (&&-eq-true m.event.forcible (mem k m.target good) c).1))
        | inr free ↦
            let (e, (m, i, n)) =
              choice_of k q r name (select (λ m. mem k m.target good) (successors k p r))
                (simp free at h) in
            let (j, c) = mem-select (λ x. mem k x.target good) (successors k p r) m i in
            (e, (m, j, n, c))
      ]

  -- An enabled event leads from a kept state to a kept state.
  pub enabled_stays :
      (f : Bool) (good : List S) (q : S) (m : Move S)
      → Memᴰ m (successors k p q)
      → is_chosen k p (enabled_of k p f good) q m.event.name ≡ true
      → mem k m.target good ≡ true
  unfolding is_chosen enabled_of successors
  enabled_stays f good q m i h =
      let forcing = forcing_of k p f good in
      let (r, a, b) = in_control (enabled_at k p good forcing) q m.event.name good h in
      let (e, (m', j, n, t)) = stays_at good forcing q r m.event.name b in
      let j' : Memᴰ m' (successors k p q) = rw e j in
      let found : target_of k p.delta q m.event.name ≡ some m.target =
        moves_found k p.delta q p.events m i in
      let found' : target_of k p.delta q m'.event.name ≡ some m'.target =
        moves_found k p.delta q p.events m' j' in
      let found'' : target_of k p.delta q m.event.name ≡ some m'.target = rw n found' in
      let same : some m.target ≡ some m'.target = sym found ∙ found'' in
      let same' : m.target ≡ m'.target = cc same in rw same' t

  -- Where nothing escapes, every event that stays is enabled; elsewhere a forcible one that stays.
  pub free_enabled :
      (f : Bool) (good : List S) (q : S) (m : Move S)
      → mem k q good ≡ true
      → Memᴰ m (successors k p q)
      → any (leaves k p good) (successors k p q) ≡ false
      → mem k m.target good ≡ true
      → is_chosen k p (enabled_of k p f good) q m.event.name ≡ true
  unfolding is_chosen enabled_of enabled_at
  free_enabled f good q m g i n t =
      let forcing = forcing_of k p f good in
      let j = mem-select_of (λ x. mem k x.target good) (successors k p q) m i t in
      let e : (mem k q forcing && any (leaves k p good) (successors k p q)) ≡ false =
        ground arith in
      of_control (enabled_at k p good forcing) q m.event.name good g (simp e (of_choice k q m _ j))

  pub forced_enabled :
      (f : Bool) (good : List S) (q : S) (m : Move S)
      → mem k q good ≡ true
      → mem k q (forcing_of k p f good) ≡ true
      → any (leaves k p good) (successors k p q) ≡ true
      → Memᴰ m (successors k p q)
      → can_force k p good m ≡ true
      → is_chosen k p (enabled_of k p f good) q m.event.name ≡ true
  unfolding is_chosen enabled_of enabled_at
  forced_enabled f good q m g u n i t =
      let forcing = forcing_of k p f good in
      let j = mem-select_of (can_force k p good) (successors k p q) m i t in
      let e : (mem k q forcing && any (leaves k p good) (successors k p q)) ≡ true = ground arith in
      of_control (enabled_at k p good forcing) q m.event.name good g (simp e (of_choice k q m _ j))
