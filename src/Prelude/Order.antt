-- ===== src/Prelude/Order.antt =====
-- Total orders as Boolean tests, the order of texts, and the order of tuples.
use Prim.Native.Char.{code}
use text.Mathlib.TextEquality.{Char-path}
use device_weave.Prelude.{
  ℕ, ◌≡◌, refl, sym, ◌∙◌, ◌↔◌, Bool, true, false, not, ◌&&◌, List, [], ◌∷◌, arith, if◌then◌else◌,
  bool_eq, Bool-cases, inl, inr,
}
use device_weave.Prelude.Text.{String, str_eq, eq_iff, codes, codes_lt, codes_eq, str_lt}

-- A strict test `lt` with its equality: what is not above is transitive and antisymmetric.
pub record Order {ℓ} (A : Type ℓ) : Type ℓ where
  pub lt : A → A → Bool
  pub eqb : A → A → Bool
  pub eqb_iff : (a b : A) → (eqb a b ≡ true) ↔ (a ≡ b)
  pub irrefl : (a : A) → lt a a ≡ false
  pub asym : (a b : A) → lt a b ≡ true → lt b a ≡ false
  pub trans : (a b c : A) → lt b a ≡ false → lt c b ≡ false → lt c a ≡ false
  pub antisym : (a b : A) → lt a b ≡ false → lt b a ≡ false → a ≡ b

unfoldable pub bool_lt : Bool → Bool → Bool
bool_lt a b = not a && b

pub bool_trans : (a b c : Bool) → bool_lt b a ≡ false → bool_lt c b ≡ false → bool_lt c a ≡ false
unfolding bool_lt
bool_trans a b c p q = ground arith

pub bool_eq_iff : (a b : Bool) → (bool_eq a b ≡ true) ↔ (a ≡ b)
bool_eq_iff a b = ground arith

pub bool_irrefl : (a : Bool) → bool_lt a a ≡ false
unfolding bool_lt
bool_irrefl a = ground arith

pub bool_antisym : (a b : Bool) → bool_lt a b ≡ false → bool_lt b a ≡ false → a ≡ b
unfolding bool_lt
bool_antisym a b p q = ground arith

pub bool_asym : (a b : Bool) → bool_lt a b ≡ true → bool_lt b a ≡ false
unfolding bool_lt
bool_asym a b h = ground arith

abbrev pub bool_order : Order Bool
bool_order = record {
  lt = bool_lt;
  eqb = bool_eq;
  eqb_iff = bool_eq_iff;
  irrefl = bool_irrefl;
  asym = bool_asym;
  trans = bool_trans;
  antisym = bool_antisym;
}

pub codes_eq_iff : (a b : List ℕ) → (codes_eq a b ≡ true) ↔ (a ≡ b)
unfolding codes_eq
codes_eq_iff [] [] = (λ _. refl, λ _. refl)
codes_eq_iff [] (b ∷ bs) = (λ h. cc, λ h. cc)
codes_eq_iff (a ∷ as') [] = (λ h. cc, λ h. cc)
codes_eq_iff (a ∷ as') (b ∷ bs) =
    (λ h. ground (arith, (codes_eq_iff as' bs).0), λ h. ground (arith, (codes_eq_iff as' bs).1))

pub codes_irrefl : (a : List ℕ) → codes_lt a a ≡ false
unfolding codes_lt
codes_irrefl [] = refl
codes_irrefl (a ∷ as') = ground (arith, codes_irrefl as')

pub codes_trans :
    (a b c : List ℕ) → codes_lt b a ≡ false → codes_lt c b ≡ false → codes_lt c a ≡ false
unfolding codes_lt
codes_trans a [] [] p q = p
codes_trans a (b ∷ bs) [] p q = cc
codes_trans [] [] (c ∷ cs) p q = refl
codes_trans [] (b ∷ bs) (c ∷ cs) p q = refl
codes_trans (a ∷ as') [] (c ∷ cs) p q = cc
codes_trans (a ∷ as') (b ∷ bs) (c ∷ cs) p q = ground (arith, codes_trans as' bs cs)

pub codes_antisym : (a b : List ℕ) → codes_lt a b ≡ false → codes_lt b a ≡ false → a ≡ b
unfolding codes_lt
codes_antisym [] [] p q = refl
codes_antisym [] (b ∷ bs) p q = cc
codes_antisym (a ∷ as') [] p q = cc
codes_antisym (a ∷ as') (b ∷ bs) p q = ground (arith, codes_antisym as' bs)

pub codes_asym : (a b : List ℕ) → codes_lt a b ≡ true → codes_lt b a ≡ false
unfolding codes_lt
codes_asym [] [] h = refl
codes_asym [] (b ∷ bs) h = refl
codes_asym (a ∷ as') [] h = cc
codes_asym (a ∷ as') (b ∷ bs) h = ground (arith, codes_asym as' bs)

abbrev pub codes_order : Order (List ℕ)
codes_order = record {
  lt = codes_lt;
  eqb = codes_eq;
  eqb_iff = codes_eq_iff;
  irrefl = codes_irrefl;
  asym = codes_asym;
  trans = codes_trans;
  antisym = codes_antisym;
}

-- A text is determined by its code points.
codes_injective : (s t : String) → codes s ≡ codes t → s ≡ t
codes_injective String.[] String.[] h = refl
codes_injective String.[] (String.◌∷◌ d t) h = cc
codes_injective (String.◌∷◌ c s) String.[] h = cc
codes_injective (String.◌∷◌ c s) (String.◌∷◌ d t) h =
    let heads : code c ≡ code d = cc h in
    let tails : codes s ≡ codes t = cc h in
    λ i. String.◌∷◌ (Char-path c d heads i) (codes_injective s t tails i)

pub str_irrefl : (s : String) → str_lt s s ≡ false
unfolding str_lt
str_irrefl s = codes_irrefl (codes s)

pub str_trans : (a b c : String) → str_lt b a ≡ false → str_lt c b ≡ false → str_lt c a ≡ false
unfolding str_lt
str_trans a b c = codes_trans (codes a) (codes b) (codes c)

pub str_antisym : (a b : String) → str_lt a b ≡ false → str_lt b a ≡ false → a ≡ b
unfolding str_lt
str_antisym a b p q = codes_injective a b (codes_antisym (codes a) (codes b) p q)

pub str_asym : (s t : String) → str_lt s t ≡ true → str_lt t s ≡ false
unfolding str_lt
str_asym s t = codes_asym (codes s) (codes t)

abbrev pub str_order : Order String
str_order = record {
  lt = str_lt;
  eqb = str_eq;
  eqb_iff = eq_iff;
  irrefl = str_irrefl;
  asym = str_asym;
  trans = str_trans;
  antisym = str_antisym;
}

-- One component of a tuple, and the order of the components after it.
module _ {ℓ κ} {A : Type ℓ} {K : Type κ} (o : Order A) (f : K → A) (next : K → K → Bool) where
  abbrev pub lex : K → K → Bool
  lex a b = if o.eqb (f a) (f b) then next a b else o.lt (f a) (f b)

  lt_of_lex : (a b : K) → lex a b ≡ false → o.lt (f a) (f b) ≡ false
  lt_of_lex a b p = elim (Bool-cases (o.eqb (f a) (f b))) [
    | inl same ↦ rw ((o.eqb_iff _ _).0 same) (o.irrefl (f b))
    | inr other ↦ ground arith
  ]

  next_of_lex : (a b : K) → f a ≡ f b → lex a b ≡ next a b
  next_of_lex a b e = rw ((o.eqb_iff _ _).1 e) refl

  pub lex_asym : (a b : K) → (next a b ≡ true → next b a ≡ false) → lex a b ≡ true → lex b a ≡ false
  lex_asym a b h p = elim (Bool-cases (o.eqb (f a) (f b))) [
    | inl same ↦
        let e : f a ≡ f b = (o.eqb_iff _ _).0 same in
        next_of_lex b a (sym e) ∙ h (sym (next_of_lex a b e) ∙ p)
    | inr other ↦ elim (Bool-cases (o.eqb (f b) (f a))) [
      | inl same ↦
          let e : f b ≡ f a = (o.eqb_iff _ _).0 same in
          next_of_lex b a e ∙ h (sym (next_of_lex a b (sym e)) ∙ p)
      | inr other' ↦ rw other' (o.asym (f a) (f b) (rw other at p))
    ]
  ]

  pub lex_trans :
      (a b c : K)
      → (next b a ≡ false → next c b ≡ false → next c a ≡ false)
      → lex b a ≡ false
      → lex c b ≡ false
      → lex c a ≡ false
  lex_trans a b c h p q =
      let ba = lt_of_lex b a p in
      let cb = lt_of_lex c b q in
      let ca = o.trans (f a) (f b) (f c) ba cb in
      elim (Bool-cases (o.eqb (f c) (f a))) [
        | inl same ↦
            let e : f c ≡ f a = (o.eqb_iff _ _).0 same in
            let ab : o.lt (f a) (f b) ≡ false = rw e at cb in
            let e' : f b ≡ f a = o.antisym (f b) (f a) ba ab in
            rw same (h (sym (next_of_lex b a e') ∙ p) (sym (next_of_lex c b (e ∙ sym e')) ∙ q))
        | inr other ↦ rw other ca
      ]

  pub lex_antisym :
      (a b : K)
      → lex a b ≡ false
      → lex b a ≡ false
      → (f a ≡ f b) × (next a b ≡ false) × (next b a ≡ false)
  lex_antisym a b p q =
      let e : f a ≡ f b = o.antisym (f a) (f b) (lt_of_lex a b p) (lt_of_lex b a q) in
      (e, sym (next_of_lex a b e) ∙ p, sym (next_of_lex b a (sym e)) ∙ q)
