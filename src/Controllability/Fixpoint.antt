-- ===== src/Controllability/Fixpoint.antt =====
-- The loop of `_synthesize` ends, and with the greatest set that its events cannot leave.
use device_weave.Prelude.{
  ℕ, zero, suc, ◌<◌, ◌≤◌, ◌≡◌, refl, sym, ap, ◌∙◌, inl, inr, Bool, true, false, not, ◌&&◌, some,
  List, [], ◌∷◌, any, select, length, arith, Bool-cases, &&-eq-true,
}
use device_weave.Controllability.{Plant, Equality, mem}
use device_weave.Controllability.Held.{IsHeld, IsHeld-mono, stays-IsHeld, IsHeld-stays}
use device_weave.Controllability.Synthesis.{Kept, Removal, fate, is_lost, fixpoint, notes}

module _ {ℓ} {A : Type ℓ} where
  shrink : (f : A → Bool) (xs : List A) → length (select (λ x. not (f x)) xs) ≤ length xs
  shrink f [] = omega arith
  shrink f (x ∷ xs) = ground (arith, shrink f xs)

  -- Taking out what passes a test makes a list shorter, where something passes it.
  shrink_strictly :
      (f : A → Bool) (xs : List A)
      → any f xs ≡ true
      → length (select (λ x. not (f x)) xs) < length xs
  shrink_strictly f [] h = cc
  shrink_strictly f (x ∷ xs) h = ground (arith, shrink f xs, shrink_strictly f xs)

module _ {S : Type 0} (k : Equality S) where
  mem_step :
      (f : S → Bool) (q x : S) (xs : List S)
      → mem k q (select f xs) ≡ (mem k q xs && f q)
      → mem k q (select f (x ∷ xs)) ≡ (mem k q (x ∷ xs) && f q)
  mem_step f q x xs ih = elim (Bool-cases (k.eqb q x)) [
    | inl same ↦ let e : f q ≡ f x = ap f ((k.eqb_iff q x).0 same) in ground arith
    | inr other ↦ ground arith
  ]

  pub mem_selected :
      (f : S → Bool) (q : S) (xs : List S) → mem k q (select f xs) ≡ (mem k q xs && f q)
  mem_selected f q [] = refl
  mem_selected f q (x ∷ xs) = mem_step f q x xs (mem_selected f q xs)

  -- A test that fails on a whole list fails on its members.
  fails_at :
      (f : S → Bool) (q : S) (xs : List S) → any f xs ≡ false → mem k q xs ≡ true → f q ≡ false
  fails_at f q [] h m = cc
  fails_at f q (x ∷ xs) h m = elim (Bool-cases (k.eqb q x)) [
    | inl same ↦ let e : f q ≡ f x = ap f ((k.eqb_iff q x).0 same) in ground arith
    | inr other ↦ fails_at f q xs (ground arith) (ground arith)
  ]

module _ {S : Type 0} (k : Equality S) (p : Plant S) where
  -- The result of the loop on a set: a part of it, held by itself, that contains every such part.
  pub record IsGreatest (f : Bool) (start good : List S) : Type 0 where
    pub within : (q : S) → mem k q good ≡ true → mem k q start ≡ true
    pub held : (q : S) → mem k q good ≡ true → IsHeld k p f (λ x. mem k x good) q
    pub greatest :
        (X : S → Bool)
        → ((q : S) → X q ≡ true → mem k q start ≡ true)
        → ((q : S) → X q ≡ true → IsHeld k p f X q)
        → (q : S) → X q ≡ true
        → mem k q good ≡ true

  abbrev kept_by : Bool → List S → S → Bool
  kept_by f good q = not (is_lost (fate k p f good q))

  settled_here :
      (f : Bool) (good : List S)
      → any (λ q. is_lost (fate k p f good q)) good ≡ false
      → IsGreatest f good good
  settled_here f good h = record {
    within = λ q m. m;
    held =
        λ q m. stays-IsHeld k p f good q (fails_at k (λ x. is_lost (fate k p f good x)) q good h m);
    greatest = λ X sub held q x. sub q x;
  }

  IsGreatest-pass :
      (f : Bool) (start good : List S)
      → IsGreatest f (select (kept_by f start) start) good
      → IsGreatest f start good
  IsGreatest-pass f start good g = record {
    within = λ q m.
        (&&-eq-true (mem k q start) (kept_by f start q)
          (sym (mem_selected k (kept_by f start) q start) ∙ g.within q m)).0;
    held = g.held;
    greatest = λ X sub held. g.greatest X (λ q x. stays_in X sub held q x) held;
  }
    where
      stays_in :
          (X : S → Bool)
          → ((q : S) → X q ≡ true → mem k q start ≡ true)
          → ((q : S) → X q ≡ true → IsHeld k p f X q)
          → (q : S) → X q ≡ true
          → mem k q (select (kept_by f start) start) ≡ true
      stays_in X sub held q x =
          let a = sub q x in
          let b =
            IsHeld-stays k p f start q
              (IsHeld-mono k p f X (λ y. mem k y start) q sub (held q x)) in
          mem_selected k (kept_by f start) q start ∙ ground arith

  -- With fuel above the length of the set, the loop ends.
  pub fixpoint_settles :
      (f : Bool) (n : ℕ) (start : List S) (why : List (Removal S))
      → length start < n
      → (kept : Kept S) × (fixpoint k p f n start why ≡ some kept) × IsGreatest f start kept.good
  unfolding fixpoint
  fixpoint_settles f zero start why h = absurd (omega arith)
  fixpoint_settles f (suc n) start why h =
      elim (Bool-cases (any (λ q. is_lost (fate k p f start q)) start)) [
        | inl more ↦
            let shorter = shrink_strictly (λ q. is_lost (fate k p f start q)) start more in
            let (kept, e, g) =
              fixpoint_settles f n (select (kept_by f start) start) (notes k p f start start why)
                (omega arith) in
            (kept, simp more e, IsGreatest-pass f start kept.good g)
        | inr done ↦
            (record { good = start; because = why }, simp done refl, settled_here f start done)
      ]
