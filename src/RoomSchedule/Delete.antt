-- ===== src/RoomSchedule/Delete.antt =====
-- delete_rule of room_schedule.py, with its text key, after a set_rule.
use device_weave.Prelude.{
  ℕ, ◌≡◌, refl, sym, ap, ◌∙◌, Bool, true, false, not, ◌&&◌, any, select, Option, none, some, List,
  [], ◌∷◌, arith, Bool-cases, bool_ext, inl, inr,
}
use device_weave.Prelude.Text.{String, str_eq, eq_iff, chars}
use device_weave.Rooms.Label.{
  Input, validate_person, validate_label, validate_label-label, is_label,
}
use device_weave.RoomSchedule.{
  Rule, Result, ok, error, is_clock, delete_rule, put_item, same_key, set_rule, check_and_put,
  with_zone, with_clocks, with_labels, others, overlaps, validate_clock,
}
use device_weave.RoomSchedule.Disjoint.{validate_clock-clock}
use device_weave.RoomSchedule.RuleId.{IdKey, parse_rule_id, rule_id_for, rule_id_for-parse}

module _ (casefold : String → String) (is_zone : String → Bool) where
  abbrev pub delete_parsed : List Rule → Result IdKey → Result (ℕ × List Rule)
  delete_parsed rules (error e) = error e
  delete_parsed rules (ok k) = ok (delete_rule casefold is_zone rules k.0 k.1 k.2)

  -- The whole of `delete_rule`.
  unfoldable pub delete_by_id : List Rule → Input → Result (ℕ × List Rule)
  unfolding parse_rule_id delete_rule
  delete_by_id rules rule_id = delete_parsed rules (parse_rule_id rule_id)

  str_eq_sym : (a b : String) → str_eq a b ≡ str_eq b a
  str_eq_sym a b =
      bool_ext _ _ (λ h. (eq_iff b a).1 (sym ((eq_iff a b).0 h)))
        (λ h. (eq_iff a b).1 (sym ((eq_iff b a).0 h)))

  abbrev hit : Rule → Rule → Bool
  hit item r =
      str_eq (casefold r.person) (casefold item.person)
      && str_eq r.start item.start
      && str_eq r.end item.end

  hit_same : (item r : Rule) → hit item r ≡ same_key casefold is_zone item r
  hit_same item r =
      rw
        (
          str_eq_sym (casefold r.person) (casefold item.person),
          str_eq_sym r.start item.start,
          str_eq_sym r.end item.end,
        )
        refl

  -- Taking out again what has been taken out changes nothing.
  select_twice :
      (item : Rule) (rules : List Rule)
      → (any (hit item) (select (λ r. not (same_key casefold is_zone item r)) rules) ≡ false)
        × (select
              (λ r. not (hit item r))
              (select (λ r. not (same_key casefold is_zone item r)) rules)
            ≡ select (λ r. not (same_key casefold is_zone item r)) rules)
  select_twice item [] = (refl, refl)
  select_twice item (r ∷ rules) = elim (Bool-cases (same_key casefold is_zone item r)) [
    | inl same ↦ simp same (select_twice item rules)
    | inr other ↦
        let e : hit item r ≡ false = hit_same item r ∙ other in
        let (a, b) = select_twice item rules in simp other (simp (e, a, b) (refl, refl))
  ]

  delete_put :
      (item : Rule) (rules : List Rule)
      → delete_rule casefold is_zone
          (put_item casefold is_zone item rules)
          (casefold item.person)
          item.start
          item.end
        ≡ (1, select (λ r. not (same_key casefold is_zone item r)) rules)
  unfolding delete_rule put_item
  delete_put item rules =
      let e : hit item item ≡ true = hit_same item item ∙ same_self item in
      let (a, b) = select_twice item rules in simp e (simp b refl)
    where
      same_self : (r : Rule) → same_key casefold is_zone r r ≡ true
      same_self r =
          let a = (eq_iff (casefold r.person) (casefold r.person)).1 refl in
          let b = (eq_iff r.start r.start).1 refl in
          let c = (eq_iff r.end r.end).1 refl in ground arith

  -- What `set_rule` stores when it succeeds.
  abbrev IsPut : List Rule → List Rule → Type 0
  IsPut rules rules' =
      (item : Rule) × (rules' ≡ put_item casefold is_zone item rules)
      × (is_label (chars item.person) ≡ true)
      × (is_clock item.start ≡ true)
      × (is_clock item.end ≡ true)
      × (str_eq item.start item.end ≡ false)

  zone-IsPut :
      (rules rules' : List Rule) (person room start end : String) (z : Result String)
      → is_label (chars person) ≡ true
      → is_clock start ≡ true
      → is_clock end ≡ true
      → str_eq start end ≡ false
      → with_zone casefold is_zone person room start end z rules ≡ ok rules'
      → IsPut rules rules'
  unfolding check_and_put
  zone-IsPut rules rules' person room start end (error why) p s e d h = cc
  zone-IsPut rules rules' person room start end (ok z) p s e d h =
      let item : Rule = record {
        person = person;
        room = room;
        start = start;
        end = end;
        timezone = z;
      } in
      elim (Bool-cases (
        any (λ r. overlaps item.start item.end r.start r.end)
          (others casefold is_zone item rules))) [
            | inl taken ↦ absurd (cc (simp taken at h))
            | inr free ↦
                let e' : ok (put_item casefold is_zone item rules) ≡ ok rules' = simp free at h in
                (item, sym (cc e'), p, s, e, d)
          ]

  clocks-IsPut :
      (rules rules' : List Rule) (person room : String) (start end : Input) (s e : Result String)
      (timezone : Option Input)
      → is_label (chars person) ≡ true
      → validate_clock casefold is_zone start ≡ s
      → validate_clock casefold is_zone end ≡ e
      → with_clocks casefold is_zone person room s e timezone rules ≡ ok rules'
      → IsPut rules rules'
  clocks-IsPut rules rules' person room start end (error why) e timezone p i j h = cc
  clocks-IsPut rules rules' person room start end (ok s) (error why) timezone p i j h = cc
  clocks-IsPut rules rules' person room start end (ok s) (ok e) timezone p i j h =
      elim (Bool-cases (str_eq s e)) [
        | inl same ↦ absurd (cc (simp same at h))
        | inr other ↦
            zone-IsPut rules rules' person room s e _ p
              (validate_clock-clock casefold is_zone start s i)
              (validate_clock-clock casefold is_zone end e j) other (simp other at h)
      ]

  labels-IsPut :
      (rules rules' : List Rule) (i start end : Input) (person room : Option String)
      (timezone : Option Input)
      → validate_label i ≡ person
      → with_labels casefold is_zone person room start end timezone rules ≡ ok rules'
      → IsPut rules rules'
  labels-IsPut rules rules' i start end none none timezone v h = cc
  labels-IsPut rules rules' i start end none (some r) timezone v h = cc
  labels-IsPut rules rules' i start end (some p) none timezone v h = cc
  labels-IsPut rules rules' i start end (some p) (some r) timezone v h =
      clocks-IsPut rules rules' p r start end _ _ timezone (validate_label-label i p v) refl refl h

  -- A `set_rule` that succeeds puts one rule, and deleting by the id of that rule reports one rule
  -- and leaves the others, if folding the case of a label gives a label.
  pub set_rule-delete :
      ((s : String) → is_label (chars s) ≡ true → is_label (chars (casefold s)) ≡ true)
      → (rules rules' : List Rule) (person room start end : Input) (timezone : Option Input)
      → set_rule casefold is_zone rules person room start end timezone ≡ ok rules'
      → (item : Rule) × (rules' ≡ put_item casefold is_zone item rules)
        × (delete_by_id rules' (some (rule_id_for casefold item.person item.start item.end))
            ≡ ok (1, select (λ r. not (same_key casefold is_zone item r)) rules))
  unfolding set_rule validate_person delete_by_id
  set_rule-delete fold rules rules' person room start end timezone h =
      let (item, e, p, s, t, d) = labels-IsPut rules rules' person start end _ _ timezone refl h in
      let read =
        rule_id_for-parse casefold item.person item.start item.end (fold item.person p) s t d in
      (
        item,
        e,
        ap (delete_parsed rules') read
            ∙ ap ok (
                ap
                  (λ rs. delete_rule casefold is_zone rs (casefold item.person) item.start item.end)
                  e
                ∙ delete_put item rules),
      )
