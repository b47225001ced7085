-- ===== src/Controllability/Classify.antt =====
-- The three classes of a specification, against what it is to be controllable.
use device_weave.Prelude.{
  ◌≡◌, refl, sym, ap, ◌∙◌, ◌↔◌, inl, inr, Bool, true, false, ◌&&◌, some, List, [], ◌∷◌, all, arith,
  Bool-cases, &&-eq-true,
}
use device_weave.Controllability.{Plant, Equality, mem}
use device_weave.Controllability.Held.{IsHeld, IsHeld-mono}
use device_weave.Controllability.Fixpoint.{IsGreatest}
use device_weave.Controllability.Greatest.{synthesize_result}
use device_weave.Controllability.Synthesis.{
  Synthesis, synthesize, legal, supcon, supcon_forcing, classify, Enforceability,
}

module _ {S : Type 0} (k : Equality S) where
  all_of :
      (f : S → Bool) (xs : List S) → ((q : S) → mem k q xs ≡ true → f q ≡ true) → all f xs ≡ true
  all_of f [] h = refl
  all_of f (x ∷ xs) h =
      let r : k.eqb x x ≡ true = (k.eqb_iff x x).1 refl in
      let i : mem k x (x ∷ xs) ≡ true = ground arith in
      let a = h x i in let b = all_of f xs (λ q m. h q (ground arith)) in ground arith

  of_all : (f : S → Bool) (xs : List S) (q : S) → all f xs ≡ true → mem k q xs ≡ true → f q ≡ true
  of_all f [] q h m = cc
  of_all f (x ∷ xs) q h m = elim (Bool-cases (k.eqb q x)) [
    | inl same ↦ let e : f q ≡ f x = ap f ((k.eqb_iff q x).0 same) in ground arith
    | inr other ↦ of_all f xs q (ground arith) (ground arith)
  ]

module _ {S : Type 0} (k : Equality S) (p : Plant S) where
  -- The legal states, the initial one among them, are held by themselves.
  pub record IsControllable (f : Bool) : Type 0 where
    pub starts : mem k p.initial (legal k p p.bad) ≡ true
    pub holds :
        (q : S) → mem k q (legal k p p.bad) ≡ true → IsHeld k p f (λ x. mem k x (legal k p p.bad)) q

  abbrev keeps_all : Synthesis S → Bool
  keeps_all s = s.retains_legal && s.closed_loop_safe

  keeps_all-IsControllable :
      (f : Bool) (s : Synthesis S)
      → IsGreatest k p f (legal k p p.bad) s.good
      → s.closed_loop_safe ≡ mem k p.initial s.good
      → s.retains_legal ≡ all (λ q. mem k q s.good) (legal k p p.bad)
      → (keeps_all s ≡ true) ↔ IsControllable f
  keeps_all-IsControllable f s g v r = (forth, back)
    where
      forth : keeps_all s ≡ true → IsControllable f
      forth h =
          let (a, b) = &&-eq-true s.retains_legal s.closed_loop_safe h in
          let i = sym v ∙ b in
          record {
            starts = g.within p.initial i;
            holds = λ q l.
                IsHeld-mono k p f (λ x. mem k x s.good) (λ x. mem k x (legal k p p.bad)) q g.within
                  (g.held q (of_all k (λ x. mem k x s.good) (legal k p p.bad) q (sym r ∙ a) l));
          }

      back : IsControllable f → keeps_all s ≡ true
      back c =
          let sub : (q : S) → mem k q (legal k p p.bad) ≡ true → mem k q s.good ≡ true =
            g.greatest (λ x. mem k x (legal k p p.bad)) (λ q m. m) c.holds in
          let a = r ∙ all_of k (λ x. mem k x s.good) (legal k p p.bad) sub in
          let b = v ∙ sub p.initial c.starts in ground arith

  result-IsControllable :
      (f : Bool) (s : Synthesis S)
      → synthesize k p f p.bad ≡ some s
      → (keeps_all s ≡ true) ↔ IsControllable f
  result-IsControllable f s e =
      let (t, e', g, v, _, r) = synthesize_result k p f p.bad in
      let same : some t ≡ some s = sym e' ∙ e in
      let same' : t ≡ s = cc same in
      keeps_all-IsControllable f s (rw same' at g) (rw same' at v) (rw same' at r)

  weaker : IsControllable false → IsControllable true
  weaker c = record { starts = c.starts; holds = λ q l. forced q (c.holds q l) }
    where
      forced :
          (q : S)
          → IsHeld k p false (λ x. mem k x (legal k p p.bad)) q
          → IsHeld k p true (λ x. mem k x (legal k p p.bad)) q
      forced q (inl h) = inl h
      forced q (inr (u, r)) = cc

  clash : (b : Bool) → b ≡ true → b ≡ false → ⊥
  clash b t f = cc

  classes :
      (guard forcing : Synthesis S)
      → (keeps_all guard ≡ true) ↔ IsControllable false
      → (keeps_all forcing ≡ true) ↔ IsControllable true
      → ((classify guard forcing ≡ Enforceability.guard_enforceable) ↔ IsControllable false)
        × ((classify guard forcing ≡ Enforceability.unenforceable) ↔ (¬ IsControllable true))
  unfolding classify
  classes guard forcing (a, b) (c, d) = elim (Bool-cases (keeps_all guard)) [
    | inl g ↦
        ((λ _. a g, λ _. simp g refl), (λ u. cc (simp g at u), λ n. absurd (n (weaker (a g)))))
    | inr g ↦ elim (Bool-cases (keeps_all forcing)) [
      | inl h ↦ (
        (λ u. cc (simp (g, h) at u), λ u. absurd (clash _ (b u) g)),
        (λ u. cc (simp (g, h) at u), λ n. absurd (n (c h))),
      )
      | inr h ↦ (
        (λ u. cc (simp (g, h) at u), λ u. absurd (clash _ (b u) g)),
        (λ _ u. clash _ (d u) h, λ _. simp (g, h) refl),
      )
    ]
  ]

  -- A specification is classified as enforceable by a guard just where its legal states are
  -- controllable without forcing, and as unenforceable just where they are not controllable even
  -- with forcing; so it needs an obligation just where only forcing helps.
  pub classify_exact :
      (guard forcing : Synthesis S)
      → supcon k p ≡ some guard
      → supcon_forcing k p ≡ some forcing
      → ((classify guard forcing ≡ Enforceability.guard_enforceable) ↔ IsControllable false)
        × ((classify guard forcing ≡ Enforceability.unenforceable) ↔ (¬ IsControllable true))
  unfolding supcon supcon_forcing
  classify_exact guard forcing e e' =
      classes guard forcing (result-IsControllable false guard e)
        (result-IsControllable true forcing e')
