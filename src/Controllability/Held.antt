-- ===== src/Controllability/Held.antt =====
-- The states that one pass of `_synthesize` keeps, against what it means to hold a state in a set.
use mathlib.Core.List.{Memᴰ}
use device_weave.Prelude.{
  ◌≡◌, refl, ap, ◌⊎◌, inl, inr, Bool, true, false, not, List, [], ◌∷◌, any, select, if◌then◌else◌,
  arith, Bool-cases, mem-select, mem-select_of, &&-eq-true,
}
use device_weave.Controllability.{Plant, Equality, Move, mem, successors}
use device_weave.Controllability.Synthesis.{fate, fate_of, is_lost, is_forced, leaves, can_force}

module _ {ℓ} {A : Type ℓ} where
  -- What an empty and a non-empty selection say of the list.
  pub select_none :
      (f : A → Bool) (xs : List A) (x : A) → select f xs ≡ [] → Memᴰ x xs → f x ≡ false
  select_none f xs x e m = elim (Bool-cases (f x)) [
    | inl hit ↦
        let m' : Memᴰ x (select f xs) = mem-select_of f xs x m hit in no_member x (rw e at m')
    | inr miss ↦ miss
  ]
    where
      no_member : (x : A) → Memᴰ x [] → f x ≡ false
      no_member x m = elim m [ ]

  pub select_some :
      (f : A → Bool) (xs ys : List A) (y : A) → select f xs ≡ y ∷ ys → Memᴰ y xs × (f y ≡ true)
  select_some f xs ys y e = mem-select f xs y (rw e (Memᴰ.head refl))

  pub select_nonempty :
      (f : A → Bool) (xs : List A)
      → any f xs ≡ true
      → (y : A) × (ys : List A) × (select f xs ≡ y ∷ ys)
  select_nonempty f [] h = cc
  select_nonempty f (x ∷ xs) h = elim (Bool-cases (f x)) [
    | inl hit ↦ (x, select f xs, simp hit refl)
    | inr miss ↦ let (y, ys, e) = select_nonempty f xs (simp miss at h) in (y, ys, simp miss e)
  ]

  pub fails_on : (f : A → Bool) (xs : List A) (x : A) → any f xs ≡ false → Memᴰ x xs → f x ≡ false
  fails_on f [] x h m = elim m [ ]
  fails_on f (y ∷ xs) x h (Memᴰ.head e) = let e' : f x ≡ f y = ap f e in ground arith
  fails_on f (y ∷ xs) x h (Memᴰ.tail m) = fails_on f xs x (ground arith) m

module _ {S : Type 0} (k : Equality S) (p : Plant S) where
  -- The uncontrollable events of a state stay in the set, or a forcible one that may be used does.
  abbrev pub IsHeld : Bool → (S → Bool) → S → Type 0
  IsHeld use_forcing X q =
      ((m : Move S) → Memᴰ m (successors k p q) → m.event.controllable ≡ false → X m.target ≡ true)
      ⊎ ((use_forcing ≡ true)
          × ((m : Move S) × Memᴰ m (successors k p q)
              × (m.event.forcible ≡ true)
              × (X m.target ≡ true)))

  pub IsHeld-mono :
      (f : Bool) (X Y : S → Bool) (q : S)
      → ((x : S) → X x ≡ true → Y x ≡ true)
      → IsHeld f X q
      → IsHeld f Y q
  IsHeld-mono f X Y q up (inl h) = inl (λ m i u. up m.target (h m i u))
  IsHeld-mono f X Y q up (inr (u, (m, i, c, t))) = inr (u, (m, i, c, up m.target t))

  -- A state that a pass keeps is held by the set of the pass, and conversely.
  held_of_fate :
      (good : List S) (q : S) (f : Bool) (es fs : List (Move S))
      → select (leaves k p good) (successors k p q) ≡ es
      → (if f then select (can_force k p good) (successors k p q) else []) ≡ fs
      → is_lost (fate_of es fs) ≡ false
      → IsHeld f (λ x. mem k x good) q
  unfolding leaves can_force
  held_of_fate good q f [] fs d e h =
      inl
        (λ m i u. let out = select_none (leaves k p good) (successors k p q) m d i in ground arith)
  held_of_fate good q f (x ∷ es) [] d e h = cc
  held_of_fate good q true (x ∷ es) (y ∷ fs) d e h =
      let (i, c) = select_some (can_force k p good) (successors k p q) fs y e in
      let c' = &&-eq-true y.event.forcible (mem k y.target good) c in inr (refl, (y, i, c'.0, c'.1))
  held_of_fate good q false (x ∷ es) (y ∷ fs) d e h = cc

  fate_of_held :
      (good : List S) (q : S) (f : Bool) (es fs : List (Move S))
      → select (leaves k p good) (successors k p q) ≡ es
      → (if f then select (can_force k p good) (successors k p q) else []) ≡ fs
      → IsHeld f (λ x. mem k x good) q
      → is_lost (fate_of es fs) ≡ false
  unfolding leaves can_force
  fate_of_held good q f [] fs d e h = refl
  fate_of_held good q f (x ∷ es) (y ∷ fs) d e h = refl
  fate_of_held good q f (x ∷ es) [] d e (inl h) =
      let (i, c) = select_some (leaves k p good) (successors k p q) es x d in
      let c' = &&-eq-true (not x.event.controllable) (not (mem k x.target good)) c in
      let t = h x i (ground arith) in ground arith
  fate_of_held good q true (x ∷ es) [] d e (inr (u, (m, i, c, t))) =
      let n = select_none (can_force k p good) (successors k p q) m e i in ground arith
  fate_of_held good q false (x ∷ es) [] d e (inr (u, r)) = cc

  pub stays-IsHeld :
      (f : Bool) (good : List S) (q : S)
      → is_lost (fate k p f good q) ≡ false
      → IsHeld f (λ x. mem k x good) q
  unfolding fate
  stays-IsHeld f good q h = held_of_fate good q f _ _ refl refl h

  pub IsHeld-stays :
      (f : Bool) (good : List S) (q : S)
      → IsHeld f (λ x. mem k x good) q
      → is_lost (fate k p f good q) ≡ false
  unfolding fate
  IsHeld-stays f good q h = fate_of_held good q f _ _ refl refl h

  forced_of :
      (e : Move S) (es fs : List (Move S))
      → is_lost (fate_of (e ∷ es) fs) ≡ false
      → is_forced (fate_of (e ∷ es) fs) ≡ true
  forced_of e es [] h = cc
  forced_of e es (x ∷ fs) h = refl

  -- A state that is kept though an event escapes is a forcing state.
  pub stays-forced :
      (f : Bool) (good : List S) (q : S)
      → any (leaves k p good) (successors k p q) ≡ true
      → is_lost (fate k p f good q) ≡ false
      → is_forced (fate k p f good q) ≡ true
  unfolding fate
  stays-forced f good q n h =
      let (e, es, i) = select_nonempty (leaves k p good) (successors k p q) n in
      simp i (forced_of e es _ (simp i at h))
