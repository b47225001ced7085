-- ===== src/RoomSchedule/RuleId.antt =====
-- The text that names a stored rule: rule_id_for and parse_rule_id of room_schedule.py.
use Prim.Native.Char.{Char, code}
use device_weave.Prelude.{
  ℕ, ◌≡◌, refl, ap, ◌∙◌, Bool, true, false, not, ◌&&◌, ◌||◌, all, none, some, List, [], ◌∷◌, ◌++◌,
  if◌then◌else◌, ◌==◌, arith, &&-eq-true,
}
use device_weave.Prelude.Text.{String, str_eq, chars, text_of, chars-text_of, text_of-chars, codes}
use device_weave.Rooms.Label.{
  Input, validate_person, validate_label_good, is_label, is_inner, is_alnum, is_some,
}
use device_weave.RoomSchedule.{Result, ok, error, bad_rule_id, is_clock, is_clock_codes}

abbrev pub tilde : Char
tilde = "~"

abbrev pub is_tilde : Char → Bool
is_tilde c = code c == 126

module _ (casefold : String → String) where
  unfoldable pub rule_id_for : String → String → String → String
  rule_id_for person start end =
      text_of (chars (casefold person) ++ (tilde ∷ (chars start ++ (tilde ∷ chars end))))

abbrev pub push : Char → List (List Char) → List (List Char)
push c [] = (c ∷ []) ∷ []
push c (w ∷ ws) = (c ∷ w) ∷ ws

-- `s.split("~")`; it has three parts just where the text has two tildes.
unfoldable pub split_tilde : List Char → List (List Char)
split_tilde [] = [] ∷ []
split_tilde (c ∷ cs) = let rest = split_tilde cs in if is_tilde c then [] ∷ rest else push c rest

abbrev pub IdKey : Type 0
IdKey = String × String × String

unfoldable pub checked_parts : String → String → String → Result IdKey
checked_parts person start end =
    if not (is_some (validate_person (some person)))
    then error bad_rule_id
    else if not (is_clock start) || not (is_clock end) || str_eq start end
    then error bad_rule_id
    else ok (person, start, end)

abbrev pub of_parts : List (List Char) → Result IdKey
of_parts (a ∷ b ∷ c ∷ []) = checked_parts (text_of a) (text_of b) (text_of c)
of_parts _ = error bad_rule_id

unfoldable pub parse_rule_id : Input → Result IdKey
unfolding split_tilde checked_parts
parse_rule_id none = error bad_rule_id
parse_rule_id (some s) = of_parts (split_tilde (chars s))

-- A part without a tilde stays whole.
split_plain : (a : List Char) → all (λ c. not (is_tilde c)) a ≡ true → split_tilde a ≡ a ∷ []
unfolding split_tilde
split_plain [] h = refl
split_plain (c ∷ a) h =
    let (n, r) = &&-eq-true (not (is_tilde c)) (all (λ x. not (is_tilde x)) a) h in
    let e : is_tilde c ≡ false = ground arith in let i = split_plain a r in simp e (ap (push c) i)

split_at_tilde :
    (a rest : List Char)
    → all (λ c. not (is_tilde c)) a ≡ true
    → split_tilde (a ++ (tilde ∷ rest)) ≡ a ∷ split_tilde rest
unfolding split_tilde
split_at_tilde [] rest h = refl
split_at_tilde (c ∷ a) rest h =
    let (n, r) = &&-eq-true (not (is_tilde c)) (all (λ x. not (is_tilde x)) a) h in
    let e : is_tilde c ≡ false = ground arith in
    let i = split_at_tilde a rest r in simp e (ap (push c) i)

inner_plain :
    (cs : List Char)
    → all (λ c. is_inner (code c)) cs ≡ true
    → all (λ c. not (is_tilde c)) cs ≡ true
unfolding is_inner is_alnum
inner_plain [] h = refl
inner_plain (c ∷ cs) h = ground (arith, inner_plain cs)

label_plain :
    (s : String) → is_label (chars s) ≡ true → all (λ c. not (is_tilde c)) (chars s) ≡ true
unfolding is_label
label_plain s h = inner_plain (chars s) (ground arith)

clock_codes : (cs : List ℕ) → is_clock_codes cs ≡ true → all (λ c. not (c == 126)) cs ≡ true
unfolding is_clock_codes
clock_codes [] h = refl
clock_codes (a ∷ []) h = cc
clock_codes (a ∷ b ∷ []) h = cc
clock_codes (a ∷ b ∷ c ∷ []) h = cc
clock_codes (a ∷ b ∷ c ∷ d ∷ []) h = cc
clock_codes (a ∷ b ∷ c ∷ d ∷ e ∷ []) h = ground arith
clock_codes (a ∷ b ∷ c ∷ d ∷ e ∷ f ∷ cs) h = cc

chars-codes :
    (s : String) → all (λ c. not (is_tilde c)) (chars s) ≡ all (λ c. not (c == 126)) (codes s)
chars-codes String.[] = refl
chars-codes (String.◌∷◌ c s) = ap (λ b. not (is_tilde c) && b) (chars-codes s)

clock_plain : (s : String) → is_clock s ≡ true → all (λ c. not (is_tilde c)) (chars s) ≡ true
unfolding is_clock
clock_plain s h = chars-codes s ∙ clock_codes (codes s) h

module _ (casefold : String → String) where
  three_parts :
      (person start end : String)
      → is_label (chars (casefold person)) ≡ true
      → is_clock start ≡ true
      → is_clock end ≡ true
      → split_tilde (chars (rule_id_for casefold person start end))
        ≡ chars (casefold person) ∷ chars start ∷ chars end ∷ []
  unfolding rule_id_for
  three_parts person start end p s e =
      ap split_tilde (chars-text_of _)
      ∙ (split_at_tilde (chars (casefold person)) _ (label_plain (casefold person) p)
          ∙ ap (λ ws. chars (casefold person) ∷ ws)
              (split_at_tilde (chars start) _ (clock_plain start s)
                ∙ ap (λ ws. chars start ∷ ws) (split_plain (chars end) (clock_plain end e))))

  -- The id of a rule, whose folded person is a label, is read back as its key.
  pub rule_id_for-parse :
      (person start end : String)
      → is_label (chars (casefold person)) ≡ true
      → is_clock start ≡ true
      → is_clock end ≡ true
      → str_eq start end ≡ false
      → parse_rule_id (some (rule_id_for casefold person start end))
        ≡ ok (casefold person, start, end)
  unfolding parse_rule_id checked_parts validate_person
  rule_id_for-parse person start end p s e d =
      let i = validate_label_good (casefold person) p in
      ap of_parts (three_parts person start end p s e)
      ∙ simp (text_of-chars (casefold person), text_of-chars start, text_of-chars end)
          (simp (i, s, e, d) refl)
