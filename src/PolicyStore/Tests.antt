-- ===== src/PolicyStore/Tests.antt =====
-- Runs and instances for policy_store.py.
use mathlib.Core.List.{Memᴰ}
use device_weave.Prelude.{ℕ, ◌≡◌, refl, sym, ◌∙◌, ap, arith, true, false, none, some, [], ◌∷◌, ltb}
use device_weave.PolicyStore.{active, superseded, Item, Io, save_policy}
use device_weave.PolicyStore.Current.{IsCurrent, no_failure, save_policy-IsCurrent}

abbrev first : Item ℕ
first = record { rule_id = "r1"; version = 1; device_type = "light"; body = 10; status = active }

first-IsCurrent : IsCurrent (first ∷ [])
unfolding IsCurrent
first-IsCurrent x y (Memᴰ.head p) (Memᴰ.head q) e = (
  λ _. q ∙ sym p,
  λ _. let v : y.version ≡ x.version = ap (λ (a : Item ℕ). a.version) (q ∙ sym p) in ground arith,
)
first-IsCurrent x y (Memᴰ.head p) (Memᴰ.tail m) e = elim m [ ]
first-IsCurrent x y (Memᴰ.tail m) my e = elim m [ ]

-- A query that fails: the first version is written over.
abbrev query_down : Io
query_down = record { query_fails = true; update_fails = false; put_fails = false }

overwrites :
    (save_policy query_down (first ∷ []) "r1" "light" 20).1
    ≡ record { rule_id = "r1"; version = 1; device_type = "light"; body = 20; status = active } ∷ []
unfolding save_policy
overwrites = refl

-- A put that fails: the version before is superseded, and no version of the rule is active.
abbrev put_down : Io
put_down = record { query_fails = false; update_fails = false; put_fails = true }

loses_its_version : save_policy put_down (first ∷ []) "r1" "light" 20 ≡ (
  none,
  record { rule_id = "r1"; version = 1; device_type = "light"; body = 10; status = superseded }
      ∷ [],
)
unfolding save_policy
loses_its_version = refl

save_policy-IsCurrent_example :
    let (answer, t) = save_policy no_failure (first ∷ []) "r1" "light" 20 in
    IsCurrent t
    × ((item : Item ℕ) × (answer ≡ some item)
        × Memᴰ item t
        × (item.status ≡ active)
        × ((y : Item ℕ)
            → Memᴰ y (first ∷ [])
            → y.rule_id ≡ "r1"
            → ltb y.version item.version ≡ true))
save_policy-IsCurrent_example = save_policy-IsCurrent (first ∷ []) "r1" "light" 20 first-IsCurrent
