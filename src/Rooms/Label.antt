-- ===== src/Rooms/Label.antt =====
-- The names of rooms and people, and the sample count, in room_fingerprint.py. `none` for an input
-- is a value that is no text, and for a result a `LabelError`. A label has ASCII characters only, so
-- its `casefold` is `lower`.
use mathlib.Core.List.{reverse}
use device_weave.Prelude.{
  ℕ, ◌≡◌, refl, Bool, true, false, ◌&&◌, ◌||◌, all, length, Option, none, some, List, [], ◌∷◌,
  arith, if◌then◌else◌, leb, ◌==◌, Bool-cases, inl, inr, sym,
}
use device_weave.Prelude.Text.{
  String, str_eq, codes, codes_eq, lower, strip_text, chars, is_space, starts_dark, strip_text_self,
}
use Prim.Native.Char.{Char, code}

abbrev pub Input : Type 0
Input = Option String

unfoldable pub is_alnum : ℕ → Bool
is_alnum c = (leb 48 c && leb c 57) || (leb 65 c && leb c 90) || (leb 97 c && leb c 122)

-- A character inside a label: also a space, a hyphen or an underscore.
unfoldable pub is_inner : ℕ → Bool
unfolding is_alnum
is_inner c = is_alnum c || c == 32 || c == 45 || c == 95

abbrev pub starts_alnum : List Char → Bool
starts_alnum [] = false
starts_alnum (c ∷ cs) = is_alnum (code c)

-- `_LABEL_RE.fullmatch`
unfoldable pub is_label : List Char → Bool
unfolding is_alnum is_inner
is_label cs =
    starts_alnum cs
    && starts_alnum (reverse cs)
    && all (λ c. is_inner (code c)) cs
    && leb (length cs) 40

unfoldable pub validate_label : Input → Option String
validate_label none = none
validate_label (some s) =
    let label = strip_text s in if is_label (chars label) then some label else none

unfoldable pub validate_person : Input → Option String
unfolding validate_label
validate_person i = validate_label i

abbrev pub unless_reserved : Option String → Option String
unless_reserved none = none
unless_reserved (some label) =
    if codes_eq (lower (codes label)) (codes "unknown") then none else some label

unfoldable pub validate_room : Input → Option String
unfolding validate_label codes_eq lower
validate_room i = unless_reserved (validate_label i)

abbrev pub is_some {ℓ} : {A : Type ℓ} → Option A → Bool
is_some none = false
is_some (some _) = true

-- `is_room_label(value, allow_unknown=True)` of a text.
unfoldable pub is_room_label : String → Bool
unfolding validate_room
is_room_label s = str_eq s "unknown" || is_some (validate_room (some s))

alnum_dark : (c : ℕ) → is_alnum c ≡ true → is_space c ≡ false
unfolding is_alnum is_space
alnum_dark c h = ground arith

starts_dark_of : (cs : List Char) → starts_alnum cs ≡ true → starts_dark cs ≡ true
starts_dark_of [] h = refl
starts_dark_of (c ∷ cs) h = ground (arith, alnum_dark (code c) h)

label_stripped : (l : String) → is_label (chars l) ≡ true → strip_text l ≡ l
unfolding is_label
label_stripped l h =
    strip_text_self l (starts_dark_of (chars l) (ground arith))
      (starts_dark_of (reverse (chars l)) (ground arith))

pub validate_label_good :
    (l : String) → is_label (chars l) ≡ true → validate_label (some l) ≡ some l
unfolding validate_label
validate_label_good l h = rw (label_stripped l h, h) refl

pub validate_label-label :
    (i : Input) (label : String) → validate_label i ≡ some label → is_label (chars label) ≡ true
unfolding validate_label
validate_label-label none label h = cc
validate_label-label (some s) label h = elim (Bool-cases (is_label (chars (strip_text s)))) [
  | inr bad ↦ absurd (cc (simp bad at h))
  | inl good ↦
      let e : some (strip_text s) ≡ some label = simp good at h in
      let e' : strip_text s ≡ label = cc e in rw (sym e') good
]

-- No blank text is a room label.
pub blank_label : is_room_label "" ≡ false
unfolding is_room_label validate_label strip_text is_label
blank_label = refl
