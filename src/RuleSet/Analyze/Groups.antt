-- ===== src/RuleSet/Analyze/Groups.antt =====
-- The rules by device, as `analyze` of rule_set_checker.py keeps them, and what the regions of a
-- device's rules cover.
use device_weave.Prelude.{
  ℕ, ◌+◌, ◌≡◌, refl, sym, true, false, some, List, [], ◌∷◌, arith, any-append, All, All-append,
  Bool-cases, inl, inr, if◌then◌else◌,
}
use mathlib.Core.List.{Memᴰ}
use mathlib.Core.Path.{subst}
use device_weave.Prelude.Text.{String, str_eq, eq_iff}
use device_weave.Policy.Data.{get, Rule}
use device_weave.RuleSet.Box.{Region, is_empty, region_minus}
use device_weave.RuleSet.Box.Laws.{Ctx, in_box, in_region, IsFit}
use device_weave.RuleSet.Box.Minus.{in_region-region_minus}
use device_weave.RuleSet.Region.{rule_region}
use device_weave.RuleSet.Region.Exact.{rule_region-IsFit}
use device_weave.RuleSet.Analyze.{
  device, Entry, entry, Groups, append_entry, group, regions, entries_for, or_nil,
}

module _ (rules : List Rule) where
  -- An entry under a device: a rule of the list for that device, with its region.
  pub record IsEntry (d : String) (e : Entry) : Type 0 where
    pub listed : Memᴰ e.rule rules
    pub region : e.region ≡ rule_region e.rule.conditions
    pub device : device e.rule ≡ d

  abbrev pub IsGrouped : Groups → Type 0
  IsGrouped [] = Unit
  IsGrouped ((d, es) ∷ g) = All (IsEntry d) es × IsGrouped g

  append_entry-IsGrouped :
      (g : Groups) (d : String) (e : Entry)
      → IsGrouped g
      → IsEntry d e
      → IsGrouped (append_entry g d e)
  unfolding append_entry
  append_entry-IsGrouped [] d e h p = ((p, tt), tt)
  append_entry-IsGrouped ((k, es) ∷ g) d e (q, h) p = elim (Bool-cases (str_eq k d)) [
    | inl same ↦
        let p' : IsEntry k e = subst (λ j. IsEntry j e) (sym ((eq_iff k d).0 same)) p in
        simp same (All-append (IsEntry k) es (e ∷ []) q (p', tt), h)
    | inr other ↦ simp other (q, append_entry-IsGrouped g d e h p)
  ]

  group-IsGrouped :
      (i : ℕ) (rs : List Rule) (g : Groups)
      → ((r : Rule) → Memᴰ r rs → Memᴰ r rules)
      → IsGrouped g
      → IsGrouped (group i rs g)
  unfolding group
  group-IsGrouped i [] g sub h = h
  group-IsGrouped i (r ∷ rs) g sub h =
      group-IsGrouped (i + 1) rs _ (λ s m. sub s (Memᴰ.tail m)) next
    where
      here : IsEntry (device r) (entry i r)
      here = record { listed = sub r (Memᴰ.head refl); region = refl; device = refl }

      next :
          IsGrouped (
            if is_empty (rule_region r.conditions)
            then g
            else append_entry g (device r) (entry i r))
      next =
          elim (is_empty (rule_region r.conditions))
            as (λ t. IsGrouped (if t then g else append_entry g (device r) (entry i r))) [
              | true ↦ h
              | false ↦ append_entry-IsGrouped g (device r) (entry i r) h here
            ]

  pub entries_for-IsEntry :
      (g : Groups) (d : String) → IsGrouped g → All (IsEntry d) (entries_for g d)
  unfolding get
  entries_for-IsEntry [] d h = tt
  entries_for-IsEntry ((k, es) ∷ g) d (q, h) =
      (elim (str_eq k d)
          as (λ t. str_eq k d ≡ t → All (IsEntry d) (or_nil (if t then some es else get g d))) [
            | true ↦ λ same. subst (λ j. All (IsEntry j) es) ((eq_iff k d).0 same) q
            | false ↦ λ other. entries_for-IsEntry g d h
          ])
        refl

  pub groups-IsGrouped : IsGrouped (group 0 rules [])
  groups-IsGrouped = group-IsGrouped 0 rules [] (λ r m. m) tt

  pub regions-IsFit : (d : String) (es : List Entry) → All (IsEntry d) es → All IsFit (regions es)
  regions-IsFit d [] h = tt
  regions-IsFit d (e ∷ es) (p, h) =
      All-append IsFit e.region (regions es)
        (subst (All IsFit) (sym p.region) (rule_region-IsFit e.rule.conditions))
        (regions-IsFit d es h)

-- A context in the regions of some rules is in the region of one of them.
pub in_regions :
    (c : Ctx) (es : List Entry)
    → in_region c (regions es) ≡ true
    → (e : Entry) × Memᴰ e es × (in_region c e.region ≡ true)
in_regions c [] h = absurd (ground arith)
in_regions c (e ∷ es) h = elim (Bool-cases (in_region c e.region)) [
  | inl here ↦ (e, Memᴰ.head refl, here)
  | inr there ↦
      let (f, m, k) =
        in_regions c es (ground (arith, any-append (in_box c) e.region (regions es))) in
      (f, Memᴰ.tail m, k)
]

-- What nothing is left of after the others are taken away lies in the others.
pub covered :
    (c : Ctx) (region others : Region)
    → All IsFit region
    → All IsFit others
    → is_empty (region_minus region others) ≡ true
    → in_region c region ≡ true
    → in_region c others ≡ true
covered c region others p q h k =
    ground (arith, in_region-region_minus c region others p q, nothing (region_minus region others))
  where
    nothing : (r : Region) → is_empty r ≡ true → in_region c r ≡ false
    nothing [] e = refl
    nothing (b ∷ bs) e = cc
