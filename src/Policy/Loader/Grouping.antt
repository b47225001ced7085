-- ===== src/Policy/Loader/Grouping.antt =====
-- What the cache of policy_loader.py finds for a device.
use device_weave.Prelude.{
  ℕ, ◌≡◌, refl, sym, ap, ◌∙◌, true, false, ◌⊎◌, some, List, [], ◌∷◌, ◌++◌, map, arith, All,
  if◌then◌else◌, Bool-cases, Option-cases, &&-eq-true, all, inl, inr,
}
use mathlib.Core.List.{append-nil, append_assoc}
use device_weave.Prelude.Text.{String, str_eq, str_in, eq_iff, codes, codes_eq, lower, strip}
use device_weave.Policy.Data.{Dict, get, Rule, Context, Params}
use device_weave.Policy.DeviceTypes.{
  canonical, canonical_device_type, by_key, find_name, find_lower, policy_scope_types,
  adapter_type_to_scope,
}
use device_weave.Policy.Evaluator.{applies, matching, compute_verdict}
use device_weave.Policy.Loader.{
  Row, Cache, append_to, file_rule, group_rows, all_pages, reload, or_none, cached,
}

-- What `save_policy` writes: the row stands under the device type of its scope, which is no blank.
unfoldable pub IsFiled : Row → Type 0
IsFiled row =
    (dt : String) × (row.filed_under ≡ some dt)
    × (str_eq dt "" ≡ false)
    × (row.rule.device_type ≡ some dt)

-- A scope class is its own class, so the cache's second resolution finds what the first one named.
find_name_in :
    (key : List ℕ) (names : List String) (n : String)
    → find_name key names ≡ some n
    → str_in n names ≡ true
unfolding find_name
find_name_in key [] n h = cc
find_name_in key (m ∷ ms) n h = elim (Bool-cases (codes_eq (codes m) key)) [
  | inl hit ↦
      let e : some m ≡ some n = simp hit at h in
      let e' : n ≡ m = cc e in ground (arith, (eq_iff n m).1 e')
  | inr miss ↦ ground (arith, find_name_in key ms n (simp miss at h))
]

find_lower_in :
    (key : List ℕ) (d : Dict String) (v : String)
    → all (λ p. str_in p.1 policy_scope_types) d ≡ true
    → find_lower key d ≡ some v
    → str_in v policy_scope_types ≡ true
unfolding find_lower
find_lower_in key [] v a h = cc
find_lower_in key ((k, w) ∷ d) v a h =
    let (first, rest) = &&-eq-true (str_in w policy_scope_types) _ a in
    elim (Bool-cases (codes_eq (lower (codes k)) key)) [
      | inl hit ↦
          let e : some w ≡ some v = simp hit at h in let e' : w ≡ v = cc e in rw (sym e') first
      | inr miss ↦ find_lower_in key d v rest (simp miss at h)
    ]

get_in :
    (d : Dict String) (k v : String)
    → all (λ p. str_in p.1 policy_scope_types) d ≡ true
    → get d k ≡ some v
    → str_in v policy_scope_types ≡ true
unfolding get
get_in [] k v a h = cc
get_in ((j, w) ∷ d) k v a h =
    let (first, rest) = &&-eq-true (str_in w policy_scope_types) _ a in
    elim (Bool-cases (str_eq j k)) [
      | inl hit ↦
          let e : some w ≡ some v = simp hit at h in let e' : w ≡ v = cc e in rw (sym e') first
      | inr miss ↦ get_in d k v rest (simp miss at h)
    ]

by_key_in :
    (dt : String) (key : List ℕ)
    → (str_in (by_key dt key) policy_scope_types ≡ true) ⊎ (by_key dt key ≡ dt)
unfolding by_key
by_key_in dt key = elim (Option-cases (find_name key policy_scope_types)) [
  | inr (n, e) ↦ rw e (inl (find_name_in key policy_scope_types n e))
  | inl e ↦ elim (Option-cases (find_lower key adapter_type_to_scope)) [
    | inr (v, f) ↦ simp (e, f) (inl (find_lower_in key adapter_type_to_scope v refl f))
    | inl f ↦ simp (e, f) (inr refl)
  ]
]

canonical_in :
    (dt : String) → (str_in (canonical dt) policy_scope_types ≡ true) ⊎ (canonical dt ≡ dt)
unfolding canonical
canonical_in dt = elim (Bool-cases (str_in dt policy_scope_types)) [
  | inl known ↦ simp known (inr refl)
  | inr new ↦ elim (Option-cases (get adapter_type_to_scope dt)) [
    | inr (v, f) ↦ simp (new, f) (inl (get_in adapter_type_to_scope dt v refl f))
    | inl f ↦ simp (new, f) (by_key_in dt (lower (strip (codes dt))))
  ]
]

canonical_known : (s : String) → str_in s policy_scope_types ≡ true → canonical s ≡ s
unfolding canonical
canonical_known s h = simp h refl

pub canonical_again :
    (dt : String)
    → canonical_device_type (some (canonical_device_type (some dt)))
      ≡ canonical_device_type (some dt)
unfolding canonical_device_type
canonical_again dt = elim (canonical_in dt) [
  | inl known ↦ canonical_known (canonical dt) known
  | inr same ↦ ap canonical same
]

append_to-get :
    (k : String) (r : Rule) (d : Dict (List Rule)) (j : String)
    → or_none (get (append_to k r d) j) ≡ (or_none (get d j) ++ (if str_eq k j then r ∷ [] else []))
unfolding append_to get
append_to-get k r [] j = elim (Bool-cases (str_eq k j)) [
  | inl same ↦ simp same refl
  | inr other ↦ simp other refl
]
append_to-get k r ((i, rs) ∷ d) j = elim (Bool-cases (str_eq i k)) [
  | inl same ↦
      let as_key : str_eq k j ≡ str_eq i j = ap (λ s. str_eq s j) (sym ((eq_iff i k).0 same)) in
      elim (Bool-cases (str_eq i j)) [
        | inl here ↦ simp (same, as_key, here) refl
        | inr there ↦ simp (same, as_key, there) (sym (append-nil (or_none (get d j))))
      ]
  | inr other ↦ elim (Bool-cases (str_eq i j)) [
    | inl here ↦
        let elsewhere : str_eq k j ≡ false = ground (arith, eq_iff i j, eq_iff k j, eq_iff i k) in
        simp (other, here, elsewhere) (sym (append-nil rs))
    | inr there ↦ simp (other, there) (append_to-get k r d j)
  ]
]

-- The rules that a list of rows files under one class.
abbrev pub filed_under : String → List Row → List Rule
filed_under j [] = []
filed_under j (row ∷ rows) =
    let rest = filed_under j rows in
    if str_eq (canonical_device_type row.rule.device_type) j then row.rule ∷ rest else rest

file_rule-get :
    (row : Row) (d : Dict (List Rule)) (j : String)
    → IsFiled row
    → or_none (get (file_rule row.filed_under row.rule d) j)
      ≡ (or_none (get d j) ++ filed_under j (row ∷ []))
unfolding file_rule IsFiled
file_rule-get row d j (dt, filed, blank, scope) =
    rw filed (simp (blank, scope) (append_to-get (canonical_device_type (some dt)) row.rule d j))

filed_under-cons :
    (j : String) (row : Row) (rows : List Row)
    → (filed_under j (row ∷ []) ++ filed_under j rows) ≡ filed_under j (row ∷ rows)
filed_under-cons j row rows =
    elim (Bool-cases (str_eq (canonical_device_type row.rule.device_type) j)) [
      | inl here ↦ simp here refl
      | inr there ↦ simp there refl
    ]

group_rows-get :
    (rows : List Row) (d : Dict (List Rule)) (j : String)
    → All IsFiled rows
    → or_none (get (group_rows rows d) j) ≡ (or_none (get d j) ++ filed_under j rows)
unfolding group_rows
group_rows-get [] d j h = sym (append-nil (or_none (get d j)))
group_rows-get (row ∷ rows) d j (r, h) =
    group_rows-get rows (file_rule row.filed_under row.rule d) j h
    ∙ ap (λ rs. rs ++ filed_under j rows) (file_rule-get row d j r)
    ∙ append_assoc (or_none (get d j)) (filed_under j (row ∷ [])) (filed_under j rows)
    ∙ ap (λ rs. or_none (get d j) ++ rs) (filed_under-cons j row rows)

-- Leaving out the rules of the other classes changes nothing that the evaluator collects.
matching-filed_under :
    (kind device_type : String) (context : Context) (rows : List Row)
    → matching kind device_type context
        (filed_under (canonical_device_type (some device_type)) rows)
      ≡ matching kind device_type context (map (λ row. row.rule) rows)
unfolding matching applies
matching-filed_under kind device_type context [] = refl
matching-filed_under kind device_type context (row ∷ rows) =
    elim (Bool-cases (
      str_eq (canonical_device_type row.rule.device_type)
        (canonical_device_type (some device_type)))) [
          | inl here ↦ simp here (rw (matching-filed_under kind device_type context rows) refl)
          | inr there ↦ simp there (matching-filed_under kind device_type context rows)
        ]

module _ (dumps : Params → String) where
  -- After a reload that reads every page, evaluating the cached policies of a device's class gives
  -- the decision that evaluating all the rows of the table gives, when each row stands under the
  -- device type of its own scope and that type is not blank.
  pub compute_verdict-cached :
      (pages : List (List Row)) (now : ℕ) (cache : Cache) (device_type action : String)
      (context : Context)
      → All IsFiled (all_pages pages)
      → compute_verdict dumps
          (cached (reload true (some pages) now cache) device_type)
          device_type
          action
          context
        ≡ compute_verdict dumps (map (λ row. row.rule) (all_pages pages)) device_type action context
  unfolding cached reload compute_verdict
  compute_verdict-cached pages now cache device_type action context h =
      let j = canonical_device_type (some device_type) in
      let e : or_none (get (group_rows (all_pages pages) []) j) ≡ filed_under j (all_pages pages) =
        group_rows-get (all_pages pages) [] j h in
      rw
        (
          e,
          matching-filed_under "block" device_type context (all_pages pages),
          matching-filed_under "modify" device_type context (all_pages pages),
        )
        refl
