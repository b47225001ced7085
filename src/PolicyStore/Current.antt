-- ===== src/PolicyStore/Current.antt =====
-- The versions of a rule and which of them is active, for policy_store.py.
use mathlib.Core.List.{Memᴰ}
use device_weave.Prelude.{
  ℕ, ◌+◌, ◌≡◌, refl, sym, ap, ◌∙◌, true, false, not, Option, none, some, List, [], ◌∷◌, map, select,
  mem-select, arith, ltb, leb, Bool-cases, inl, inr,
}
use device_weave.Prelude.Text.{String, eq_iff}
use device_weave.PolicyStore.{
  Status, active, superseded, Item, Io, is_active, has_key, latest, get_latest_policy_version,
  restatus, set_status, put_item, next_version, supersede, new_item, save_policy,
}
use device_weave.PolicyStore.Latest.{IsTop, latest-none, latest-some}

abbrev pub no_failure : Io
no_failure = record { query_fails = false; update_fails = false; put_fails = false }

module _ {Body : Type 0} where
  -- Two items with one key are one item, and an active item has the highest version of its rule.
  unfoldable pub IsCurrent : List (Item Body) → Type 0
  IsCurrent t =
      (x y : Item Body)
      → Memᴰ x t
      → Memᴰ y t
      → y.rule_id ≡ x.rule_id
      → (y.version ≡ x.version → y ≡ x)
        × (is_active x.status ≡ true → leb y.version x.version ≡ true)

  mem-map :
      (f : Item Body → Item Body) (t : List (Item Body)) (x : Item Body)
      → Memᴰ x (map f t)
      → (x' : Item Body) × Memᴰ x' t × (x ≡ f x')
  mem-map f [] x m = elim m [ ]
  mem-map f (i ∷ t) x (Memᴰ.head e) = (i, Memᴰ.head refl, e)
  mem-map f (i ∷ t) x (Memᴰ.tail m) = let (x', m', e) = mem-map f t x m in (x', Memᴰ.tail m', e)

  -- The item before a change of status.
  restatus-same :
      (r : String) (v : ℕ) (s : Status) (i : Item Body)
      → ((restatus r v s i).rule_id ≡ i.rule_id) × ((restatus r v s i).version ≡ i.version)
  restatus-same r v s i = elim (Bool-cases (has_key r v i)) [
    | inl hit ↦ simp hit (refl, refl)
    | inr miss ↦ simp miss (refl, refl)
  ]

  active_before :
      (r : String) (v : ℕ) (s : Status) (i : Item Body)
      → is_active s ≡ false
      → is_active (restatus r v s i).status ≡ true
      → (is_active i.status ≡ true) × (has_key r v i ≡ false)
  active_before r v s i off h = elim (Bool-cases (has_key r v i)) [
    | inl hit ↦ absurd (cc (off, simp hit at h))
    | inr miss ↦ (simp miss at h, miss)
  ]

  set_status-IsCurrent :
      (t : List (Item Body)) (r : String) (v : ℕ) (s : Status)
      → is_active s ≡ false
      → IsCurrent t
      → IsCurrent (map (restatus r v s) t)
  unfolding IsCurrent
  set_status-IsCurrent t r v s off h x y mx my e =
      let (x', mx', ex) = mem-map (restatus r v s) t x mx in
      let (y', my', ey) = mem-map (restatus r v s) t y my in
      let (rx, vx) = restatus-same r v s x' in
      let (ry, vy) = restatus-same r v s y' in
      let rule : (Item Body → String) = λ a. a.rule_id in
      let ver : (Item Body → ℕ) = λ a. a.version in
      let vx' : x.version ≡ x'.version = ap ver ex ∙ vx in
      let vy' : y.version ≡ y'.version = ap ver ey ∙ vy in
      let (one, top) = h x' y' mx' my' (sym (ap rule ey ∙ ry) ∙ e ∙ ap rule ex ∙ rx) in
      (
        λ q. ey ∙ ap (restatus r v s) (one (sym vy' ∙ q ∙ vx')) ∙ sym ex,
        λ on.
            let on' : is_active (restatus r v s x').status ≡ true =
              sym (ap (λ (a : Item Body). is_active a.status) ex) ∙ on in
            let high = top (active_before r v s x' off on').0 in ground arith,
      )

  -- An item above the others of its rule, none of which is active, keeps the table current.
  put_item-IsCurrent :
      (i : Item Body) (t : List (Item Body))
      → IsCurrent t
      → ((y : Item Body)
          → Memᴰ y t
          → y.rule_id ≡ i.rule_id
          → (ltb y.version i.version ≡ true) × (is_active y.status ≡ false))
      → IsCurrent (put_item i t)
  unfolding IsCurrent put_item
  put_item-IsCurrent i t h new x y mx my e = both mx my
    where
      kept :
          (z : Item Body) → Memᴰ z (select (λ j. not (has_key i.rule_id i.version j)) t) → Memᴰ z t
      kept z m = (mem-select (λ j. not (has_key i.rule_id i.version j)) t z m).0

      both :
          Memᴰ x (i ∷ select (λ j. not (has_key i.rule_id i.version j)) t)
          → Memᴰ y (i ∷ select (λ j. not (has_key i.rule_id i.version j)) t)
          → (y.version ≡ x.version → y ≡ x)
            × (is_active x.status ≡ true → leb y.version x.version ≡ true)
      both (Memᴰ.head qx) (Memᴰ.head qy) = (
        λ _. qy ∙ sym qx,
        λ _.
            let v : y.version ≡ x.version = ap (λ (a : Item Body). a.version) (qy ∙ sym qx) in
            ground arith,
      )
      both (Memᴰ.head qx) (Memᴰ.tail my') =
          let v : x.version ≡ i.version = ap (λ (a : Item Body). a.version) qx in
          let (low, off) = new y (kept y my') (e ∙ ap (λ (a : Item Body). a.rule_id) qx) in
          (λ q. absurd (ground arith), λ _. ground arith)
      both (Memᴰ.tail mx') (Memᴰ.head qy) =
          let v : y.version ≡ i.version = ap (λ (a : Item Body). a.version) qy in
          let (low, off) = new x (kept x mx') (sym e ∙ ap (λ (a : Item Body). a.rule_id) qy) in
          (λ q. absurd (ground arith), λ on. absurd (cc (off, on)))
      both (Memᴰ.tail mx') (Memᴰ.tail my') = h x y (kept x mx') (kept y my') e

  -- No item of the rule is active, and all of them are below the next version.
  abbrev IsQuiet : List (Item Body) → String → ℕ → Type 0
  IsQuiet t r next =
      (y : Item Body)
      → Memᴰ y t
      → y.rule_id ≡ r
      → (ltb y.version next ≡ true) × (is_active y.status ≡ false)

  below_top :
      (t : List (Item Body)) (r : String) (l y : Item Body)
      → IsTop t r l
      → Memᴰ y t
      → y.rule_id ≡ r
      → ltb y.version (l.version + 1) ≡ true
  below_top t r l y (m, e, top) my ey = let low = top y my ey in ground arith

  -- An active item of the rule is the one with the highest version.
  active_top :
      (t : List (Item Body)) (r : String) (l y : Item Body)
      → IsCurrent t
      → IsTop t r l
      → Memᴰ y t
      → y.rule_id ≡ r
      → is_active y.status ≡ true
      → (l ≡ y) × (y.version ≡ l.version)
  unfolding IsCurrent
  active_top t r l y h (m, e, top) my ey on =
      let (one, high) = h y l my m (e ∙ sym ey) in
      let up = high on in
      let low = top y my ey in let v : l.version ≡ y.version = ground arith in (one v, sym v)

  supersede-IsQuiet :
      (t : List (Item Body)) (r : String) (o : Option (Item Body))
      → latest t r ≡ o
      → IsCurrent t
      → IsCurrent (supersede no_failure t r o)
        × IsQuiet (supersede no_failure t r o) r (next_version o)
  unfolding set_status
  supersede-IsQuiet t r none q h =
      (h, λ y m e. absurd (ground (arith, (eq_iff y.rule_id r).1 e, latest-none t r y q m)))
  supersede-IsQuiet t r (some l) q h = elim (Bool-cases (is_active l.status)) [
    | inl on ↦ simp on (set_status-IsCurrent t r l.version superseded refl h, after_update)
    | inr off ↦ simp off (
      h,
      λ y m e. (
        below_top t r l y top m e,
        elim (Bool-cases (is_active y.status)) [
          | inl on ↦
              let (same, v) = active_top t r l y h top m e on in
              absurd (cc (off, on, ap (λ (a : Item Body). is_active a.status) same))
          | inr quiet ↦ quiet
        ],
      ),
    )
  ]
    where
      top : IsTop t r l
      top = latest-some t r l q

      after_update : IsQuiet (map (restatus r l.version superseded) t) r (l.version + 1)
      after_update y m e =
          let (y', m', ey) = mem-map (restatus r l.version superseded) t y m in
          let (ry, vy) = restatus-same r l.version superseded y' in
          let e' : y'.rule_id ≡ r = sym (ap (λ (a : Item Body). a.rule_id) ey ∙ ry) ∙ e in
          let v : y.version ≡ y'.version = ap (λ (a : Item Body). a.version) ey ∙ vy in
          let low = below_top t r l y' top m' e' in
          (
            ground arith,
            elim (Bool-cases (is_active y.status)) [
              | inr quiet ↦ quiet
              | inl on ↦
                  let (on', miss) =
                    active_before r l.version superseded y' refl
                      (sym (ap (λ (a : Item Body). is_active a.status) ey) ∙ on) in
                  let (same, v') = active_top t r l y' h top m' e' on' in
                  let mine = (eq_iff y'.rule_id r).1 e' in absurd (ground arith)
            ],
          )

  -- When its requests to a current table succeed, `save_policy` leaves a current table: two items
  -- with one key are one item, and an active item has the highest version of its rule. It returns the
  -- item that it stores, which is active and has a higher version than every item that the table had of its rule.
  pub save_policy-IsCurrent :
      (t : List (Item Body)) (r device_type : String) (body : Body)
      → IsCurrent t
      → IsCurrent (save_policy no_failure t r device_type body).1
        × ((item : Item Body) × ((save_policy no_failure t r device_type body).0 ≡ some item)
            × Memᴰ item (save_policy no_failure t r device_type body).1
            × (item.status ≡ active)
            × ((y : Item Body) → Memᴰ y t → y.rule_id ≡ r → ltb y.version item.version ≡ true))
  unfolding save_policy get_latest_policy_version put_item
  save_policy-IsCurrent t r device_type body h =
      let (h', quiet) = supersede-IsQuiet t r (latest t r) refl h in
      (
        put_item-IsCurrent (new_item r device_type body (latest t r))
            (supersede no_failure t r (latest t r)) h' quiet,
        (
          new_item r device_type body (latest t r),
          refl,
          Memᴰ.head refl,
          refl,
          above (latest t r) refl,
        ),
      )
    where
      above :
          (o : Option (Item Body))
          → latest t r ≡ o
          → (y : Item Body) → Memᴰ y t
          → y.rule_id ≡ r
          → ltb y.version (next_version o) ≡ true
      above none q y m e = absurd (ground (arith, (eq_iff y.rule_id r).1 e, latest-none t r y q m))
      above (some l) q y m e = below_top t r l y (latest-some t r l q) m e
