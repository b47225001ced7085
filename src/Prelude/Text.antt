-- ===== src/Prelude/Text.antt =====
-- Texts: equality, Python's `strip` and `lower`, and the order of code points.
use Prim.Native.Char.{Char, code}
use Prim.Native.String.{String}
use text.Mathlib.Text.{◌==◌ as text_eq}
use mathlib.Core.List.{reverse, reverse-reverse}
use device_weave.Prelude.{
  ℕ, ◌+◌, ◌≡◌, refl, ap, ◌∙◌, not, Bool, true, false, ◌&&◌, ◌||◌, List, [], ◌∷◌, ◌++◌, map, arith,
  ltb, leb, ◌==◌, if◌then◌else◌,
}
pub use Prim.Native.String.{String}
pub use text.Mathlib.TextEquality.{eq_iff}

abbrev pub str_eq : String → String → Bool
str_eq s t = text_eq s t

-- `x in names`
abbrev pub str_in : String → List String → Bool
str_in s [] = false
str_in s (t ∷ ts) = str_eq s t || str_in s ts

pub str_in-append :
    (s : String) (xs ys : List String) → str_in s (xs ++ ys) ≡ (str_in s xs || str_in s ys)
str_in-append s [] ys = refl
str_in-append s (x ∷ xs) ys = ground (arith, str_in-append s xs ys)

-- The code points of a text.
abbrev pub codes : String → List ℕ
codes String.[] = []
codes (String.◌∷◌ c s) = code c ∷ codes s

-- `s < t` for Python's texts, which are ordered by code points.
unfoldable pub codes_lt : List ℕ → List ℕ → Bool
codes_lt [] [] = false
codes_lt [] (b ∷ bs) = true
codes_lt (a ∷ as') [] = false
codes_lt (a ∷ as') (b ∷ bs) = ltb a b || (a == b && codes_lt as' bs)

unfoldable pub str_lt : String → String → Bool
unfolding codes_lt
str_lt s t = codes_lt (codes s) (codes t)

-- What `str.isspace` accepts.
unfoldable pub is_space : ℕ → Bool
is_space c =
    (leb 9 c && leb c 13)
    || (leb 28 c && leb c 32)
    || c == 133
    || c == 160
    || c == 5760
    || (leb 8192 c && leb c 8202)
    || c == 8232
    || c == 8233
    || c == 8239
    || c == 8287
    || c == 12288

unfoldable pub lstrip : List ℕ → List ℕ
unfolding is_space
lstrip [] = []
lstrip (c ∷ cs) = let rest = lstrip cs in if is_space c then rest else c ∷ cs

-- `s.strip()`, on the code points.
unfoldable pub strip : List ℕ → List ℕ
unfolding lstrip
strip cs = reverse (lstrip (reverse (lstrip cs)))

-- `s.lower()` on ASCII letters; other characters are left alone.
unfoldable pub lower : List ℕ → List ℕ
lower = map (λ c. if leb b'A' c && leb c b'Z' then c + 32 else c)

unfoldable pub codes_eq : List ℕ → List ℕ → Bool
codes_eq [] [] = true
codes_eq (a ∷ as') (b ∷ bs) = a == b && codes_eq as' bs
codes_eq _ _ = false

abbrev pub chars : String → List Char
chars String.[] = []
chars (String.◌∷◌ c s) = c ∷ chars s

abbrev pub text_of : List Char → String
text_of [] = String.[]
text_of (c ∷ cs) = String.◌∷◌ c (text_of cs)

unfoldable pub lstrip_chars : List Char → List Char
unfolding is_space
lstrip_chars [] = []
lstrip_chars (c ∷ cs) = let rest = lstrip_chars cs in if is_space (code c) then rest else c ∷ cs

-- `s.strip()`, as a text.
unfoldable pub strip_text : String → String
unfolding lstrip_chars
strip_text s = text_of (reverse (lstrip_chars (reverse (lstrip_chars (chars s)))))

pub chars-text_of : (cs : List Char) → chars (text_of cs) ≡ cs
chars-text_of [] = refl
chars-text_of (c ∷ cs) = ap (λ (r : List Char). c ∷ r) (chars-text_of cs)

pub text_of-chars : (s : String) → text_of (chars s) ≡ s
text_of-chars String.[] = refl
text_of-chars (String.◌∷◌ c s) = ap (λ r. String.◌∷◌ c r) (text_of-chars s)

-- A text whose ends are no spaces is stripped.
abbrev pub starts_dark : List Char → Bool
starts_dark [] = true
starts_dark (c ∷ cs) = not (is_space (code c))

lstrip_dark : (cs : List Char) → starts_dark cs ≡ true → lstrip_chars cs ≡ cs
unfolding lstrip_chars is_space
lstrip_dark [] h = refl
lstrip_dark (c ∷ cs) h = ground arith

pub strip_text_self :
    (s : String)
    → starts_dark (chars s) ≡ true
    → starts_dark (reverse (chars s)) ≡ true
    → strip_text s ≡ s
unfolding strip_text
strip_text_self s h k =
    let e : lstrip_chars (chars s) ≡ chars s = lstrip_dark (chars s) h in
    let e' : lstrip_chars (reverse (chars s)) ≡ reverse (chars s) =
      lstrip_dark (reverse (chars s)) k in
    rw (e, e') (ap text_of (reverse-reverse (chars s)) ∙ text_of-chars s)
