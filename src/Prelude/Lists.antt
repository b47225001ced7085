-- ===== src/Prelude/Lists.antt =====
-- Lists measured by native numbers, and the tests and predicates over them.
use Prim.Native.Nat.{ℕ, suc}
use mathlib.Core.Path.{◌≡◌, refl, ap, sym, ◌∙◌}
use mathlib.Core.Bool.{Bool, true, false, ◌&&◌, ◌||◌}
use mathlib.Core.List.{List, [], ◌∷◌, ◌++◌, Memᴰ}
use native.Mathlib.Omega.{arith}
use mathlib.Core.Logic.{inl, inr}
use device_weave.Prelude.Tests.{if◌then◌else◌, Bool-cases}

module _ {ℓ} {A : Type ℓ} where
  abbrev pub length : List A → ℕ
  length [] = 0
  length (x ∷ xs) = suc (length xs)

  -- Python's `any` and `all` over a test.
  abbrev pub any : (A → Bool) → List A → Bool
  any p [] = false
  any p (x ∷ xs) = p x || any p xs

  abbrev pub all : (A → Bool) → List A → Bool
  all p [] = true
  all p (x ∷ xs) = p x && all p xs

  -- A comprehension with a condition.
  abbrev pub select : (A → Bool) → List A → List A
  select p [] = []
  select p (x ∷ xs) = let rest = select p xs in if p x then x ∷ rest else rest

module _ {ℓ} {A : Type ℓ} where
  pub any-append : (p : A → Bool) (xs ys : List A) → any p (xs ++ ys) ≡ (any p xs || any p ys)
  any-append p [] ys = refl
  any-append p (x ∷ xs) ys = ground (arith, any-append p xs ys)

  pub any-select : (p q : A → Bool) (xs : List A) → any p (select q xs) ≡ any (λ x. q x && p x) xs
  any-select p q [] = refl
  any-select p q (x ∷ xs) = ground (arith, any-select p q xs)

module _ {ℓ κ} {A : Type ℓ} where
  abbrev pub All : (A → Type κ) → List A → Type κ
  All P [] = Unit
  All P (x ∷ xs) = P x × All P xs

module _ {ℓ κ} {A : Type ℓ} where
  pub All-intro : (P : A → Type κ) (xs : List A) → ((x : A) → P x) → All P xs
  All-intro P [] f = tt
  All-intro P (x ∷ xs) f = (f x, All-intro P xs f)

  pub All-append : (P : A → Type κ) (xs ys : List A) → All P xs → All P ys → All P (xs ++ ys)
  All-append P [] ys h k = k
  All-append P (x ∷ xs) ys (p, h) k = (p, All-append P xs ys h k)

  pub All-select : (P : A → Type κ) (q : A → Bool) (xs : List A) → All P xs → All P (select q xs)
  All-select P q [] h = tt
  All-select P q (x ∷ xs) (p, h) = elim (Bool-cases (q x)) [
    | inl kept ↦ simp kept (p, All-select P q xs h)
    | inr dropped ↦ simp dropped (All-select P q xs h)
  ]

module _ {ℓ κ ι} {A : Type ℓ} where
  pub All-map :
      (P : A → Type κ) (Q : A → Type ι) (xs : List A) → ((x : A) → P x → Q x) → All P xs → All Q xs
  All-map P Q [] f h = tt
  All-map P Q (x ∷ xs) f (p, h) = (f x p, All-map P Q xs f h)

-- The end of a list with no hit has none.
module _ {ℓ} {A : Type ℓ} where
  pub any-append_false :
      (p : A → Bool) (xs ys : List A) → any p (xs ++ ys) ≡ false → any p ys ≡ false
  any-append_false p [] ys h = h
  any-append_false p (x ∷ xs) ys h = any-append_false p xs ys (ground arith)

  -- What a selection holds is in the list and passes the test.
  pub mem-select :
      (p : A → Bool) (xs : List A) (x : A) → Memᴰ x (select p xs) → Memᴰ x xs × (p x ≡ true)
  mem-select p [] x m = elim m [ ]
  mem-select p (y ∷ ys) x m =
      (elim (p y)
          as (λ t.
            p y ≡ t
            → Memᴰ x (if t then y ∷ select p ys else select p ys)
            → Memᴰ x (y ∷ ys) × (p x ≡ true)) [
              | true ↦ λ kept m'. chosen kept (mem-select p ys x) m'
              | false ↦ λ dropped m'. let (m'', h) = mem-select p ys x m' in (Memᴰ.tail m'', h)
            ])
        refl m
    where
      chosen :
          p y ≡ true
          → (Memᴰ x (select p ys) → Memᴰ x ys × (p x ≡ true))
          → Memᴰ x (y ∷ select p ys)
          → Memᴰ x (y ∷ ys) × (p x ≡ true)
      chosen kept ih (Memᴰ.head e) = (Memᴰ.head e, ap p e ∙ kept)
      chosen kept ih (Memᴰ.tail m') = let (m'', h) = ih m' in (Memᴰ.tail m'', h)

  pub mem-select_of :
      (p : A → Bool) (xs : List A) (x : A) → Memᴰ x xs → p x ≡ true → Memᴰ x (select p xs)
  mem-select_of p [] x m h = elim m [ ]
  mem-select_of p (y ∷ ys) x (Memᴰ.head e) h =
      let kept : p y ≡ true = ap p (sym e) ∙ h in simp kept (Memᴰ.head e)
  mem-select_of p (y ∷ ys) x (Memᴰ.tail m) h = elim (Bool-cases (p y)) [
    | inl kept ↦ simp kept (Memᴰ.tail (mem-select_of p ys x m h))
    | inr dropped ↦ simp dropped (mem-select_of p ys x m h)
  ]
