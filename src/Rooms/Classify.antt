-- ===== src/Rooms/Classify.antt =====
-- The room nearest to a reading: classify of room_fingerprint.py. Buckets are what
-- `_sample_bucket` and `_as_bucket` give, from 1 to 5, and a confidence is in hundredths.
-- `casefold` is a parameter.
use mathlib.Core.List.{reverse}
use device_weave.Prelude.{
  ℕ, ◌+◌, ◌-◌, ◌*◌, ◌/◌, ◌%◌, Bool, true, false, not, ◌&&◌, ◌||◌, Option, none, some, List, [], ◌∷◌,
  any, select, if◌then◌else◌, leb, ltb, ◌==◌,
}
use device_weave.Prelude.Text.{String, str_eq, codes, codes_eq, strip_text, strip, lstrip, is_space}

pub record Sample : Type 0 where
  pub node : String
  pub bucket : Option ℕ

pub record Fingerprint : Type 0 where
  pub room : String
  pub samples : List Sample

-- A triple of `ranked`.
pub record Ranked : Type 0 where
  pub room : String
  pub dist : ℕ
  pub had_bucket : Bool

abbrev pub apart : ℕ → ℕ → ℕ
apart a b = (a - b) + (b - a)

unfoldable pub least : ℕ → List ℕ → ℕ
least best [] = best
least best (x ∷ xs) = least (if ltb x best then x else best) xs

abbrev pub with_bucket : ℕ → Option ℕ → List ℕ → List ℕ
with_bucket live none ds = ds
with_bucket live (some b) ds = apart b live ∷ ds

-- The distances of the samples that have a bucket.
abbrev pub distances : ℕ → List Sample → List ℕ
distances live [] = []
distances live (s ∷ ss) = with_bucket live s.bucket (distances live ss)

abbrev pub rank_by : String → List ℕ → Ranked
rank_by room [] = record { room = room; dist = 0; had_bucket = false }
rank_by room (d ∷ ds) = record { room = room; dist = least d ds; had_bucket = true }

abbrev pub rank_at : String → Option ℕ → List Sample → Ranked
rank_at room none ss = record { room = room; dist = 0; had_bucket = false }
rank_at room (some live) ss = rank_by room (distances live ss)

-- `round` of a number of half hundredths to hundredths; a half goes to the even one.
abbrev pub halved : ℕ → ℕ
halved x = let q = x / 2 in if x % 2 == 1 && q % 2 == 1 then q + 1 else q

abbrev pub confidence_floor : ℕ
confidence_floor = 50

abbrev pub is_close : ℕ → List ℕ → Bool
is_close best [] = false
is_close best (d ∷ ds) = leb (least d ds - best) 1

abbrev pub dists : List Ranked → List ℕ
dists [] = []
dists (r ∷ rs) = r.dist ∷ dists rs

unfoldable pub confidence_of : Option ℕ → Bool → ℕ → List ℕ → ℕ
unfolding least
confidence_of none had best others = if best == 0 then 50 else 0
confidence_of (some live) had best others =
    if not had
    then (if best == 0 then 50 else 0)
    else if is_close best others
    then halved (100 - 25 * best)
    else 100 - 25 * best

abbrev pub winners_at : ℕ → List Ranked → List Ranked
winners_at best rs = select (λ r. r.dist == best) rs

abbrev pub floored : String → ℕ → String × ℕ
floored room confidence =
    if ltb confidence confidence_floor then ("unknown", confidence) else (room, confidence)

-- The room of the winners where they agree on one.
unfoldable pub agreed : Option ℕ → ℕ → List Ranked → List Ranked → String × ℕ
unfolding confidence_of
agreed live best rs [] = ("unknown", 0)
agreed live best rs (w ∷ ws) =
    if any (λ x. not (str_eq x.room w.room)) ws
    then ("unknown", 0)
    else floored w.room (
        confidence_of live (any (λ x. x.had_bucket) (w ∷ ws)) best
          (dists (select (λ x. not (str_eq x.room w.room)) rs)))

unfoldable pub classify_ranked : Option ℕ → List Ranked → String × ℕ
unfolding least agreed
classify_ranked live [] = ("unknown", 0)
classify_ranked live (r ∷ rs) =
    let best = least r.dist (dists rs) in agreed live best (r ∷ rs) (winners_at best (r ∷ rs))

-- `" ".join(text.split())` of a text that does not start with a space; `owed` is a space to write.
unfoldable pub squeeze : Bool → List ℕ → List ℕ
unfolding is_space
squeeze owed [] = []
squeeze owed (c ∷ cs) =
    let spaced = squeeze true cs in
    let written = c ∷ squeeze false cs in
    if is_space c then spaced else if owed then 32 ∷ written else written

-- The text without a last word `eero`, which stands reversed in the second argument.
abbrev pub drop_eero : List ℕ → List ℕ → List ℕ
drop_eero text (a ∷ b ∷ c ∷ d ∷ e ∷ rest) =
    if codes_eq (e ∷ d ∷ c ∷ b ∷ a ∷ []) (codes " eero") then strip (reverse rest) else text
drop_eero text _ = text

abbrev pub is_blank : List ℕ → Bool
is_blank [] = true
is_blank (_ ∷ _) = false

module _ (casefold : String → String) where
  unfoldable pub node_key : String → List ℕ
  unfolding squeeze strip lstrip codes_eq strip_text
  node_key s =
      let text = squeeze false (lstrip (codes (casefold (strip_text s)))) in
      drop_eero text (reverse text)

  unfoldable pub same_node : String → String → Bool
  unfolding node_key codes_eq
  same_node a b = not (is_blank (node_key a)) && codes_eq (node_key a) (node_key b)

  -- `_sample_matches_node`
  abbrev pub matches_node : String → String → Sample → Bool
  matches_node node zone s =
      same_node s.node node || (not (str_eq zone "") && same_node s.node zone)

  abbrev pub rank_of : String → Option ℕ → List Sample → List Ranked → List Ranked
  rank_of room live [] rest = rest
  rank_of room live (s ∷ ss) rest = rank_at room live (s ∷ ss) ∷ rest

  unfoldable pub rank : String → String → Option ℕ → List Fingerprint → List Ranked
  unfolding strip_text least same_node
  rank node zone live [] = []
  rank node zone live (f ∷ fs) =
      let rest = rank node zone live fs in
      if str_eq (strip_text f.room) "" || str_eq (casefold f.room) "unknown"
      then rest
      else rank_of f.room live (select (matches_node node zone) f.samples) rest

  unfoldable pub classify : String → Option ℕ → List Fingerprint → String → String × ℕ
  unfolding rank classify_ranked
  classify node live fingerprints zone =
      let node_name = strip_text node in
      let zone_name = strip_text zone in
      if str_eq node_name "" && str_eq zone_name ""
      then ("unknown", 0)
      else classify_ranked live (rank node_name zone_name live fingerprints)
