-- ===== src/PolicyStore/Latest.antt =====
-- The version of a rule that `latest` finds among the stored items of policy_store.py.
use mathlib.Core.List.{Memᴰ}
use mathlib.Core.Path.{subst}
use device_weave.Prelude.{
  ◌≡◌, refl, sym, ap, ◌∙◌, true, false, Option, none, some, List, [], ◌∷◌, arith, ltb, leb,
  Bool-cases, Option-cases, inl, inr, ◌⊎◌,
}
use device_weave.Prelude.Text.{String, str_eq, eq_iff}
use device_weave.PolicyStore.{Item, higher, latest}

module _ {Body : Type 0} where
  -- What `latest` answers.
  higher_cases :
      (i : Item Body) (o : Option (Item Body))
      → ((higher i o ≡ some i) × ((j : Item Body) → o ≡ some j → leb j.version i.version ≡ true))
        ⊎ ((j : Item Body) × (o ≡ some j)
            × (higher i o ≡ some j)
            × (leb i.version j.version ≡ true))
  higher_cases i none = inl (refl, λ j h. absurd (cc h))
  higher_cases i (some j) = elim (Bool-cases (ltb i.version j.version)) [
    | inl less ↦ inr (j, refl, simp less refl, ground arith)
    | inr more ↦
        let top : leb j.version i.version ≡ true = ground arith in
        inl (
          simp more refl,
          λ k h. let e : j ≡ k = cc h in rw (sym (ap (λ (a : Item Body). a.version) e)) top,
        )
  ]

  pub latest-none :
      (t : List (Item Body)) (r : String) (y : Item Body)
      → latest t r ≡ none
      → Memᴰ y t
      → str_eq y.rule_id r ≡ false
  unfolding latest
  latest-none [] r y h m = elim m [ ]
  latest-none (i ∷ t) r y h m = elim (Bool-cases (str_eq i.rule_id r)) [
    | inl mine ↦ elim (higher_cases i (latest t r)) [
      | inl (e, top) ↦ absurd (cc (e, simp mine at h))
      | inr (j, e, e', top) ↦ absurd (cc (e', simp mine at h))
    ]
    | inr other ↦ elim m [
      | Memᴰ.head e ↦ ap (λ (a : Item Body). str_eq a.rule_id r) e ∙ other
      | Memᴰ.tail m' ↦ latest-none t r y (simp other at h) m'
    ]
  ]

  -- An item of the rule with the highest version.
  abbrev pub IsTop : List (Item Body) → String → Item Body → Type 0
  IsTop t r l =
      Memᴰ l t
      × (l.rule_id ≡ r)
      × ((y : Item Body) → Memᴰ y t → y.rule_id ≡ r → leb y.version l.version ≡ true)

  IsTop-first :
      (i : Item Body) (t : List (Item Body)) (r : String)
      → i.rule_id ≡ r
      → ((y : Item Body) → Memᴰ y t → y.rule_id ≡ r → leb y.version i.version ≡ true)
      → IsTop (i ∷ t) r i
  IsTop-first i t r mine below = (
    Memᴰ.head refl,
    mine,
    λ y m e. elim m [
      | Memᴰ.head q ↦
          let v : y.version ≡ i.version = ap (λ (a : Item Body). a.version) q in ground arith
      | Memᴰ.tail m' ↦ below y m' e
    ],
  )

  IsTop-rest :
      (i : Item Body) (t : List (Item Body)) (r : String) (j : Item Body)
      → leb i.version j.version ≡ true
      → IsTop t r j
      → IsTop (i ∷ t) r j
  IsTop-rest i t r j top (m, mine, below) = (
    Memᴰ.tail m,
    mine,
    λ y m' e. elim m' [
      | Memᴰ.head q ↦
          let v : y.version ≡ i.version = ap (λ (a : Item Body). a.version) q in ground arith
      | Memᴰ.tail m'' ↦ below y m'' e
    ],
  )

  below_first :
      (i : Item Body) (t : List (Item Body)) (r : String)
      → ((l : Item Body) → latest t r ≡ some l → IsTop t r l)
      → ((j : Item Body) → latest t r ≡ some j → leb j.version i.version ≡ true)
      → (y : Item Body) → Memᴰ y t
      → y.rule_id ≡ r
      → leb y.version i.version ≡ true
  below_first i t r ih top y m e = elim (Option-cases (latest t r)) [
    | inl empty ↦ absurd (ground (arith, (eq_iff y.rule_id r).1 e, latest-none t r y empty m))
    | inr (j, q) ↦ let (m', e', below) = ih j q in ground (arith, below y m e, top j q)
  ]

  pub latest-some :
      (t : List (Item Body)) (r : String) (l : Item Body) → latest t r ≡ some l → IsTop t r l
  unfolding latest
  latest-some [] r l h = cc
  latest-some (i ∷ t) r l h = elim (Bool-cases (str_eq i.rule_id r)) [
    | inl mine ↦ elim (higher_cases i (latest t r)) [
      | inl (e, top) ↦
          let il : i ≡ l = cc (e, simp mine at h) in
          subst (IsTop (i ∷ t) r) il (
            IsTop-first i t r ((eq_iff i.rule_id r).0 mine)
              (below_first i t r (latest-some t r) top))
      | inr (j, e, e', top) ↦
          let jl : j ≡ l = cc (e', simp mine at h) in
          subst (IsTop (i ∷ t) r) jl (IsTop-rest i t r j top (latest-some t r j e))
    ]
    | inr other ↦
        let (m, e, top) = latest-some t r l (simp other at h) in
        (
          Memᴰ.tail m,
          e,
          λ y m' e'. elim m' [
            | Memᴰ.head q ↦
                let same : i.rule_id ≡ r = sym (ap (λ (a : Item Body). a.rule_id) q) ∙ e' in
                absurd (ground (arith, (eq_iff i.rule_id r).1 same))
            | Memᴰ.tail m'' ↦ top y m'' e'
          ],
        )
  ]
