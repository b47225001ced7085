-- ===== src/Policy/Evaluator/Keys.antt =====
-- The order of `rule_winner_key` of policy_engine/evaluator.py is total, and `min` finds a least
-- rule.
use device_weave.Prelude.{
  ◌≡◌, refl, ◌∙◌, ◌⊎◌, Bool, true, false, List, [], ◌∷◌, All, Bool-cases, inl, inr, if◌then◌else◌,
}
use mathlib.Core.List.{Memᴰ}
use device_weave.Prelude.Text.{String}
use device_weave.Prelude.Order.{
  lex_trans, lex_asym, lex_antisym, bool_order, codes_order, str_order, str_trans, str_asym,
  str_antisym,
}
use device_weave.Policy.Data.{Params, Rule}
use device_weave.Policy.Evaluator.{
  WinnerKey, params_lt, reason_lt, rid_lt, key_lt, rule_winner_key, min_rule,
}

pub key_trans : (a b c : WinnerKey) → key_lt b a ≡ false → key_lt c b ≡ false → key_lt c a ≡ false
unfolding key_lt
key_trans a b c =
    lex_trans bool_order (λ k. k.missing) rid_lt a b c
      (lex_trans codes_order (λ k. k.rid) reason_lt a b c
        (lex_trans str_order (λ k. k.reason) params_lt a b c
          (str_trans a.params b.params c.params)))

pub key_asym : (a b : WinnerKey) → key_lt a b ≡ true → key_lt b a ≡ false
unfolding key_lt
key_asym a b =
    lex_asym bool_order (λ k. k.missing) rid_lt a b
      (lex_asym codes_order (λ k. k.rid) reason_lt a b
        (lex_asym str_order (λ k. k.reason) params_lt a b (str_asym a.params b.params)))

pub key_antisym : (a b : WinnerKey) → key_lt a b ≡ false → key_lt b a ≡ false → a ≡ b
unfolding key_lt
key_antisym a b p q =
    let (m, p₁, q₁) = lex_antisym bool_order (λ (k : WinnerKey). k.missing) rid_lt a b p q in
    let (r, p₂, q₂) = lex_antisym codes_order (λ (k : WinnerKey). k.rid) reason_lt a b p₁ q₁ in
    let (s, p₃, q₃) = lex_antisym str_order (λ (k : WinnerKey). k.reason) params_lt a b p₂ q₂ in
    let t = str_antisym a.params b.params p₃ q₃ in
    λ i. record { missing = m i; rid = r i; reason = s i; params = t i }

module _ (dumps : Params → String) where
  abbrev pub before : Rule → Rule → Bool
  before p q = key_lt (rule_winner_key dumps p) (rule_winner_key dumps q)

  -- A rule that `min` may choose: none of the list comes before it.
  abbrev pub IsLeast : Rule → List Rule → Type 0
  IsLeast p rs = Memᴰ p rs × All (λ q. before q p ≡ false) rs

  before_irrefl : (p : Rule) → before p p ≡ false
  before_irrefl p = elim (Bool-cases (before p p)) [
    | inl less ↦ key_asym (rule_winner_key dumps p) (rule_winner_key dumps p) less
    | inr kept ↦ kept
  ]

  abbrev better : Rule → Rule → Rule
  better b r = if before r b then r else b

  better_least :
      (b r : Rule)
      → (before b (better b r) ≡ false)
        × (before r (better b r) ≡ false)
        × ((better b r ≡ b) ⊎ (better b r ≡ r))
  better_least b r = elim (Bool-cases (before r b)) [
    | inl less ↦ rw less (key_asym _ _ less, before_irrefl r, inr refl)
    | inr kept ↦ rw kept (before_irrefl b, kept, inl refl)
  ]

  -- A least rule of the better one and the rest is a least one of both and the rest.
  widen :
      (b r c m : Rule) (rs : List Rule)
      → before b c ≡ false
      → before r c ≡ false
      → (c ≡ b) ⊎ (c ≡ r)
      → IsLeast m (c ∷ rs)
      → IsLeast m (b ∷ r ∷ rs)
  widen b r c m rs p q from (Memᴰ.tail t, (h, hs)) =
      (Memᴰ.tail (Memᴰ.tail t), (key_trans _ _ _ h p, (key_trans _ _ _ h q, hs)))
  widen b r c m rs p q (inl e) (Memᴰ.head e', (h, hs)) =
      (Memᴰ.head (e' ∙ e), (key_trans _ _ _ h p, (key_trans _ _ _ h q, hs)))
  widen b r c m rs p q (inr e) (Memᴰ.head e', (h, hs)) =
      (Memᴰ.tail (Memᴰ.head (e' ∙ e)), (key_trans _ _ _ h p, (key_trans _ _ _ h q, hs)))

  pub min_rule-IsLeast : (b : Rule) (rs : List Rule) → IsLeast (min_rule dumps b rs) (b ∷ rs)
  unfolding min_rule
  min_rule-IsLeast b [] = (Memᴰ.head refl, (before_irrefl b, tt))
  min_rule-IsLeast b (r ∷ rs) =
      let (p, q, from) = better_least b r in
      widen b r (better b r) (min_rule dumps (better b r) rs) rs p q from
        (min_rule-IsLeast (better b r) rs)
