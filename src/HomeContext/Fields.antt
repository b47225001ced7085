-- ===== src/HomeContext/Fields.antt =====
-- What the fields of get_context say of the readings that they come from.
use mathlib.Core.Path.{subst}
use device_weave.Prelude.{
  sym, Option-cases, ℕ, zero, suc, ◌+◌, ◌-◌, ◌*◌, ◌/◌, ◌%◌, ◌≡◌, refl, Bool, true, false, Option,
  none, some, ◌≤◌, ◌<◌, ◌↔◌, ◌⊎◌, arith, leb, inl, inr, Bool-cases,
}
use device_weave.Prelude.Int.{ℤ, pos, negsuc, pos_part, neg_part, ltb_ℤ}
use device_weave.Prelude.Text.{String, str_eq, strip_text}
use device_weave.RuleSet.Dim.{Field}
use device_weave.RuleSet.Interval.Whole.{scale}
use device_weave.RuleSet.Box.Laws.{Ctx}
use device_weave.RuleSet.Region.Matches.{to_context}
use device_weave.HomeContext.{
  Item, Reading, Read, unreadable, found, fetch, get_context, temperature_of, number_or, flag_or,
  fahrenheit, round_tenths, truncated, negative, room_of, room_label, is_home_of, home_flag,
}

-- A value of the service's answer; a failed fetch gives none.
abbrev pub measured : (Reading → Option ℤ) → Option Reading → Option ℤ
measured value none = none
measured value (some r) = value r

-- `f` is a whole number of tenths, at most half a tenth from `9 * t / 5 + 32`. Five times a
-- thousandth of `f` and nine times one of `t` are counted in units of 1/5000.
unfoldable pub IsFahrenheit : ℤ → ℤ → Type 0
IsFahrenheit t f =
    (pos_part f % 100 ≡ 0)
    × (neg_part f % 100 ≡ 0)
    × (5 * pos_part f + 9 * neg_part t ≤ 9 * pos_part t + 5 * neg_part f + 160_250)
    × (9 * pos_part t + 5 * neg_part f + 159_750 ≤ 5 * pos_part f + 9 * neg_part t)

-- `w` is `x` without its fraction, towards zero.
unfoldable pub IsWholePart : ℤ → ℤ → Type 0
IsWholePart x w =
    (pos_part w % 1000 ≡ 0)
    × (neg_part w % 1000 ≡ 0)
    × (pos_part w ≤ pos_part x)
    × (pos_part x < pos_part w + 1000)
    × (neg_part w ≤ neg_part x)
    × (neg_part x < neg_part w + 1000)

-- A relation to the value that was measured, or the default.
abbrev pub Gives : (ℤ → ℤ → Type 0) → ℤ → Option ℤ → ℤ → Type 0
Gives P d none y = y ≡ d
Gives P d (some x) y = P x y

abbrev pub IsExact : ℤ → ℤ → Type 0
IsExact x y = y ≡ x

-- The room's label of an item that is there, stripped.
abbrev pub Labels : Read → String → Type 0
Labels read s =
    (i : Item) × (t : String) × (read ≡ found (some i))
    × (i.room ≡ some t)
    × (s ≡ strip_text t)
    × (str_eq s "" ≡ false)

-- A stored `is_home` that is false or null.
abbrev pub IsAway : Option (Option Bool) → Type 0
IsAway o = (o ≡ some none) ⊎ (o ≡ some (some false))

pub record Describes (r : Option Reading) (hour : ℕ) (home room : Read) (c : Ctx) : Type 0 where
  pub temperature :
      Gives IsFahrenheit
        (pos 70_000)
        (measured (λ (m : Reading). m.temperature_2m) r)
        (c Field.temperature)
  pub humidity :
      Gives IsExact
        (pos 50_000)
        (measured (λ (m : Reading). m.relative_humidity_2m) r)
        (c Field.humidity)
  pub cloud_cover :
      Gives IsWholePart
        (pos 0)
        (measured (λ (m : Reading). m.cloud_cover) r)
        (c Field.cloud_cover_pct)
  pub overcast : (c Field.is_overcast ≡ true) ↔ (
      (x : ℤ) × (measured (λ (m : Reading). m.cloud_cover) r ≡ some x)
      × (ltb_ℤ (pos 70_000) x ≡ true))
  pub time_hour : c Field.time_hour ≡ pos hour
  pub away : (c Field.is_home ≡ false) ↔ ((i : Item) × (home ≡ found (some i)) × IsAway i.is_home)
  pub label : Labels room (c Field.room) ⊎ (c Field.room ≡ "unknown")
  pub labelled : (s : String) → Labels room s → c Field.room ≡ s

round_tenths-near :
    (n : ℕ)
    → (round_tenths n % 100 ≡ 0) × (5 * round_tenths n ≤ n + 250) × (n ≤ 5 * round_tenths n + 250)
unfolding round_tenths
round_tenths-near n = ground arith

negative-parts : (n : ℕ) → (pos_part (negative n) ≡ 0) × (neg_part (negative n) ≡ n)
negative-parts zero = (refl, refl)
negative-parts (suc n) = (refl, refl)

fahrenheit-IsFahrenheit : (t : ℤ) → IsFahrenheit t (fahrenheit t)
unfolding fahrenheit IsFahrenheit
fahrenheit-IsFahrenheit (pos n) = let near = round_tenths-near (9 * n + 160_000) in ground arith
fahrenheit-IsFahrenheit (negsuc n) = elim (Bool-cases (leb (9 * (n + 1)) 160_000)) [
  | inl above ↦ let near = round_tenths-near (160_000 - 9 * (n + 1)) in simp above (ground arith)
  | inr below ↦
      let near = round_tenths-near (9 * (n + 1) - 160_000) in
      let (p, q) = negative-parts (round_tenths (9 * (n + 1) - 160_000)) in
      simp (below, p, q) (ground arith)
]

truncated-IsWholePart : (x : ℤ) → IsWholePart x (truncated x)
unfolding truncated IsWholePart
truncated-IsWholePart (pos n) = ground arith
truncated-IsWholePart (negsuc n) =
    let (p, q) = negative-parts ((n + 1) / 1000 * 1000) in simp (p, q) (ground arith)

abbrev context_of : Option Reading → ℕ → Read → Read → Ctx
context_of r hour home room Field.temperature = temperature_of (fetch r).temperature_c
context_of r hour home room Field.humidity = number_or (pos 50_000) (fetch r).humidity_pct
context_of r hour home room Field.cloud_cover_pct =
    truncated (number_or (pos 0) (fetch r).cloud_cover_pct)
context_of r hour home room Field.is_overcast = flag_or false (fetch r).is_overcast
context_of r hour home room Field.time_hour = pos hour
context_of r hour home room Field.is_home = is_home_of home
context_of r hour home room Field.room = room_of room

temperature_of-Gives : (t : Option ℤ) → Gives IsFahrenheit (pos 70_000) t (temperature_of t)
temperature_of-Gives none = refl
temperature_of-Gives (some t) = fahrenheit-IsFahrenheit t

humidity-Gives : (x : Option ℤ) → Gives IsExact (pos 50_000) x (number_or (pos 50_000) x)
humidity-Gives none = refl
humidity-Gives (some x) = refl

cover-Gives : (x : Option ℤ) → Gives IsWholePart (pos 0) x (truncated (number_or (pos 0) x))
cover-Gives none = unfold truncated in refl
cover-Gives (some x) = truncated-IsWholePart x

overcast_iff :
    (x : Option ℤ)
    → (ltb_ℤ (pos 70_000) (number_or (pos 0) x) ≡ true)
      ↔ ((y : ℤ) × (x ≡ some y) × (ltb_ℤ (pos 70_000) y ≡ true))
overcast_iff none = (λ h. cc, λ (y, e, h). cc)
overcast_iff (some x) = (λ h. (x, refl, h), λ (y, e, h). cc)

home_flag-IsAway : (o : Option (Option Bool)) → (home_flag o ≡ false) ↔ IsAway o
home_flag-IsAway none = (λ h. cc, λ h. elim h [ inl e ↦ cc e | inr e ↦ cc e ])
home_flag-IsAway (some none) = (λ h. inl refl, λ h. refl)
home_flag-IsAway (some (some true)) = (λ h. cc, λ h. elim h [ inl e ↦ cc e | inr e ↦ cc e ])
home_flag-IsAway (some (some false)) = (λ h. inr refl, λ h. refl)

is_home_of-IsAway :
    (home : Read)
    → (is_home_of home ≡ false) ↔ ((i : Item) × (home ≡ found (some i)) × IsAway i.is_home)
is_home_of-IsAway unreadable = (λ h. cc, λ (i, e, h). cc)
is_home_of-IsAway (found none) = (λ h. cc, λ (i, e, h). cc)
is_home_of-IsAway (found (some i)) =
    let (down, up) = home_flag-IsAway i.is_home in
    (
      λ h. (i, refl, down h),
      λ (j, e, h).
          let same : i ≡ j = cc e in up (subst (λ (k : Item). IsAway k.is_home) (sym same) h),
    )

room_labelled : (read : Read) (s : String) → Labels read s → room_of read ≡ s
unfolding room_of
room_labelled read s (i, t, e, q, strips, full) =
    let blank : str_eq (strip_text t) "" ≡ false = rw (sym strips) full in
    rw (e, q) (simp blank (sym strips))

room_cases : (read : Read) → Labels read (room_of read) ⊎ (room_of read ≡ "unknown")
unfolding room_of
room_cases unreadable = inr refl
room_cases (found none) = inr refl
room_cases (found (some i)) = elim (Option-cases i.room) [
  | inl missing ↦ inr (rw missing refl)
  | inr (t, given) ↦ elim (Bool-cases (str_eq (strip_text t) "")) [
    | inl blank ↦ inr (rw given (simp blank refl))
    | inr full ↦
        let e : room_label i.room ≡ strip_text t = rw given (simp full refl) in
        inl (i, t, refl, given, e, rw e full)
  ]
]

measured_by :
    (r : Option Reading)
    → ((fetch r).temperature_c ≡ measured (λ (m : Reading). m.temperature_2m) r)
      × ((fetch r).humidity_pct ≡ measured (λ (m : Reading). m.relative_humidity_2m) r)
      × ((fetch r).cloud_cover_pct ≡ measured (λ (m : Reading). m.cloud_cover) r)
      × (flag_or false (fetch r).is_overcast
          ≡ ltb_ℤ (pos 70_000) (number_or (pos 0) (measured (λ (m : Reading). m.cloud_cover) r)))
unfolding fetch
measured_by none = (refl, refl, refl, refl)
measured_by (some r) = (refl, refl, refl, refl)

context_of-Describes :
    (r : Option Reading) (hour : ℕ) (home room : Read)
    → Describes r hour home room (context_of r hour home room)
context_of-Describes r hour home room =
    let (t, h, k, o) = measured_by r in
    record {
      temperature = rw t (temperature_of-Gives _);
      humidity = rw h (humidity-Gives _);
      cloud_cover = rw k (cover-Gives _);
      overcast = rw o (overcast_iff _);
      time_hour = refl;
      away = is_home_of-IsAway home;
      label = room_cases room;
      labelled = room_labelled room;
    }

-- Whatever the weather service and the presence item give, the fields of `get_context` are: the
-- temperature in Fahrenheit, a whole number of tenths at most half a tenth from nine fifths of the
-- Celsius value plus 32; the humidity as it is; the cloud cover without its fraction; `is_overcast`
-- exactly where a cloud cover above 70 was measured; the hour; `is_home` false exactly where the
-- item has a false or a null one; the item's room, stripped, where that is not blank, and
-- `unknown` otherwise. A value that is not measured becomes 70 degrees, a humidity of 50, a cloud
-- cover of 0.
pub get_context-Describes :
    (r : Option Reading) (hour : ℕ) (home room : Read)
    → (c : Ctx) × (get_context (fetch r) hour home room ≡ to_context c)
      × Describes r hour home room c
unfolding get_context scale
get_context-Describes r hour home room =
    (context_of r hour home room, refl, context_of-Describes r hour home room)
