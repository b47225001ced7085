-- ===== src/Controllability/Search.antt =====
-- `_reach` ends, and does not leave a set that the enabled events do not leave.
use mathlib.Core.List.{Memᴰ}
use device_weave.Prelude.{
  ℕ, zero, suc, ◌+◌, ◌<◌, ◌≤◌, ◌≡◌, refl, sym, ◌∙◌, inl, inr, Bool, true, false, not, ◌&&◌, some,
  List, [], ◌∷◌, any, all, select, length, arith, Bool-cases, Option-cases, &&-eq-true,
}
use device_weave.Prelude.Text.{String, str_eq}
use device_weave.Controllability.{
  Plant, Equality, Move, Edge, Event, mem, successors, moves, target_of,
}
use device_weave.Controllability.Synthesis.{Choice, Walk, is_chosen, enter, visit, turns}

module _ {S : Type 0} (k : Equality S) where
  -- A target of `delta`.
  abbrev pub is_target : List (Edge S) → S → Bool
  is_target delta t = any (λ e. k.eqb t e.target) delta

  -- How many entries of `delta` lead out of what has been seen.
  abbrev unseen : List (Edge S) → List S → ℕ
  unseen delta seen = length (select (λ e. not (mem k e.target seen)) delta)

  unseen_less :
      (delta : List (Edge S)) (t : S) (seen : List S) → unseen delta (t ∷ seen) ≤ unseen delta seen
  unseen_less [] t seen = omega arith
  unseen_less (e ∷ es) t seen = ground (arith, unseen_less es t seen)

  pub unseen_bound : (delta : List (Edge S)) (seen : List S) → unseen delta seen ≤ length delta
  unseen_bound [] seen = omega arith
  unseen_bound (e ∷ es) seen = ground (arith, unseen_bound es seen)

  unseen_target :
      (delta : List (Edge S)) (t : S) (seen : List S)
      → is_target delta t ≡ true
      → mem k t seen ≡ false
      → unseen delta (t ∷ seen) < unseen delta seen
  unseen_target [] t seen h n = cc
  unseen_target (e ∷ es) t seen h n = elim (Bool-cases (k.eqb t e.target)) [
    | inl same ↦
        let i : t ≡ e.target = (k.eqb_iff t e.target).0 same in
        let back : k.eqb e.target t ≡ true = (k.eqb_iff e.target t).1 (sym i) in
        let n' : mem k e.target seen ≡ false = rw (sym i) n in ground (arith, unseen_less es t seen)
    | inr other ↦ ground (arith, unseen_less es t seen, unseen_target es t seen)
  ]

  found_target :
      (delta : List (Edge S)) (q t : S) (name : String)
      → target_of k delta q name ≡ some t
      → is_target delta t ≡ true
  unfolding target_of
  found_target [] q t name h = cc
  found_target (e ∷ es) q t name h = elim (Bool-cases (k.eqb q e.source && str_eq name e.event)) [
    | inl here ↦
        let i : some e.target ≡ some t = simp here at h in
        let j : e.target ≡ t = cc i in
        let l : k.eqb t e.target ≡ true = (k.eqb_iff t e.target).1 (sym j) in ground arith
    | inr other ↦
        let i : target_of k es q name ≡ some t = simp other at h in
        ground (arith, found_target es q t name i)
  ]

  moves_target :
      (delta : List (Edge S)) (q : S) (evs : List Event)
      → all (λ m. is_target delta m.target) (moves k delta q evs) ≡ true
  unfolding moves
  moves_target delta q [] = refl
  moves_target delta q (ev ∷ evs) = elim (Option-cases (target_of k delta q ev.name)) [
    | inl e ↦ simp e (moves_target delta q evs)
    | inr (t, e) ↦
        simp e (ground (arith, found_target delta q t ev.name e, moves_target delta q evs))
  ]

module _ {S : Type 0} (k : Equality S) (p : Plant S) (enabled : List (Choice S))
    (bad : List S) where
  abbrev pub size : List S → List S → ℕ
  size stack seen = length stack + unseen k p.delta seen

  enter_grows :
      (q : S) (m : Move S) (w : Walk S)
      → is_target k p.delta m.target ≡ true
      → let v = enter k p enabled bad q m w in size v.stack v.seen ≤ size w.stack w.seen
  unfolding enter
  enter_grows q m w h = ground (arith, unseen_target k p.delta m.target w.seen h)

  visit_grows :
      (q : S) (ms : List (Move S)) (w : Walk S)
      → all (λ m. is_target k p.delta m.target) ms ≡ true
      → let v = visit k p enabled bad q ms w in size v.stack v.seen ≤ size w.stack w.seen
  unfolding visit
  visit_grows q [] w h = omega arith
  visit_grows q (m ∷ ms) w h =
      let (a, b) =
        &&-eq-true (is_target k p.delta m.target) (all (λ x. is_target k p.delta x.target) ms) h in
      let c = enter_grows q m w a in
      let d = visit_grows q ms (enter k p enabled bad q m w) b in omega arith

  successors_target : (q : S) → all (λ m. is_target k p.delta m.target) (successors k p q) ≡ true
  unfolding successors
  successors_target q = moves_target k p.delta q p.events

  -- With fuel for the stack and for what is unseen, the search ends.
  pub turns_end :
      (n : ℕ) (stack seen : List S) (safe : Bool)
      → size stack seen ≤ n
      → (w : Walk S) × (turns k p enabled bad n stack seen safe ≡ some w)
  unfolding turns
  turns_end n [] seen safe h = (_, refl)
  turns_end zero (q ∷ stack) seen safe h = absurd (omega arith)
  turns_end (suc n) (q ∷ stack) seen safe h =
      let w : Walk S = record { stack = stack; seen = seen; safe = safe } in
      let c = visit_grows q (successors k p q) w (successors_target q) in
      turns_end n _ _ _ (omega arith)

  -- A set that the enabled events do not leave, and that has no bad state.
  pub record IsClosed (G : S → Bool) : Type 0 where
    pub clear : (q : S) → G q ≡ true → mem k q bad ≡ false
    pub stay :
        (q : S) (m : Move S)
        → G q ≡ true
        → Memᴰ m (successors k p q)
        → is_chosen k p enabled q m.event.name ≡ true
        → G m.target ≡ true

  enter_keeps :
      (G : S → Bool)
      → IsClosed G
      → (q : S) (m : Move S) (w : Walk S) → G q ≡ true
      → Memᴰ m (successors k p q)
      → all G w.stack ≡ true
      → let v = enter k p enabled bad q m w in (all G v.stack ≡ true) × (v.safe ≡ w.safe)
  unfolding enter
  enter_keeps G c q m w g i h = elim (Bool-cases (is_chosen k p enabled q m.event.name)) [
    | inl on ↦
        let t : G m.target ≡ true = c.stay q m g i on in
        let b : mem k m.target bad ≡ false = c.clear m.target t in ground arith
    | inr off ↦ simp off (h, refl)
  ]

  visit_keeps :
      (G : S → Bool)
      → IsClosed G
      → (q : S) (ms : List (Move S)) (w : Walk S) → G q ≡ true
      → ((m : Move S) → Memᴰ m ms → Memᴰ m (successors k p q))
      → all G w.stack ≡ true
      → let v = visit k p enabled bad q ms w in (all G v.stack ≡ true) × (v.safe ≡ w.safe)
  unfolding visit
  visit_keeps G c q [] w g i h = (h, refl)
  visit_keeps G c q (m ∷ ms) w g i h =
      let (a, b) = enter_keeps G c q m w g (i m (Memᴰ.head refl)) h in
      let (d, e) =
        visit_keeps G c q ms (enter k p enabled bad q m w) g (λ x j. i x (Memᴰ.tail j)) a in
      (d, e ∙ b)

  -- A search that starts in such a set does not lower its flag.
  pub turns_keep :
      (G : S → Bool)
      → IsClosed G
      → (n : ℕ) (stack seen : List S) (safe : Bool) (w : Walk S) → all G stack ≡ true
      → turns k p enabled bad n stack seen safe ≡ some w
      → w.safe ≡ safe
  unfolding turns
  turns_keep G c n [] seen safe w h e = cc
  turns_keep G c zero (q ∷ stack) seen safe w h e = cc
  turns_keep G c (suc n) (q ∷ stack) seen safe w h e =
      let (g, r) = &&-eq-true (G q) (all G stack) h in
      let v : Walk S = record { stack = stack; seen = seen; safe = safe } in
      let (a, b) = visit_keeps G c q (successors k p q) v g (λ m i. i) r in
      turns_keep G c n _ _ _ w a e ∙ b
