-- ===== src/Rooms/Nearest.antt =====
-- The room that classify names is the only one at the least distance.
use mathlib.Core.List.{Memᴰ}
use device_weave.Prelude.{
  ℕ, ◌≤◌, ◌≡◌, refl, sym, ap, ◌∙◌, Bool, true, false, not, ◌&&◌, Option, List, [], ◌∷◌, any,
  if◌then◌else◌, ltb, ◌==◌, arith, Bool-cases, inl, inr, mem-select, mem-select_of,
}
use device_weave.Prelude.Text.{String, str_eq, eq_iff, strip_text}
use device_weave.Rooms.Classify.{
  Ranked, Fingerprint, least, dists, winners_at, floored, agreed, classify_ranked, confidence_floor,
  classify, rank,
}

least_below : (best : ℕ) (xs : List ℕ) → least best xs ≤ best
unfolding least
least_below best [] = omega arith
least_below best (x ∷ xs) = let b = least_below (if ltb x best then x else best) xs in ground arith

least_mem : (best : ℕ) (rs : List Ranked) (r : Ranked) → Memᴰ r rs → least best (dists rs) ≤ r.dist
unfolding least
least_mem best [] r m = elim m [ ]
least_mem best (x ∷ rs) r (Memᴰ.head e) =
    let b = least_below (if ltb x.dist best then x.dist else best) (dists rs) in
    let d : r.dist ≡ x.dist = ap (λ y. y.dist) e in ground arith
least_mem best (x ∷ rs) r (Memᴰ.tail m) =
    least_mem (if ltb x.dist best then x.dist else best) rs r m

-- No member passes a test that no element passes.
none_passes :
    (f : Ranked → Bool) (rs : List Ranked) (r : Ranked) → any f rs ≡ false → Memᴰ r rs → f r ≡ false
none_passes f [] r h m = elim m [ ]
none_passes f (x ∷ rs) r h (Memᴰ.head e) = let e' : f r ≡ f x = ap f e in ground arith
none_passes f (x ∷ rs) r h (Memᴰ.tail m) = none_passes f rs r (ground arith) m

-- A ranked room at a distance that none is below and that it shares with no other room.
pub record IsNearest (rs : List Ranked) (room : String) (confidence : ℕ) : Type 0 where
  pub winner : Ranked
  pub listed : Memᴰ winner rs
  pub named : winner.room ≡ room
  pub nearest : (r : Ranked) → Memᴰ r rs → winner.dist ≤ r.dist
  pub alone : (r : Ranked) → Memᴰ r rs → r.dist ≡ winner.dist → r.room ≡ room
  pub sure : confidence_floor ≤ confidence

clash : (b : Bool) → b ≡ true → b ≡ false → ⊥
clash b t f = cc

floored_room :
    (r room : String) (c confidence : ℕ)
    → floored r c ≡ (room, confidence)
    → str_eq room "unknown" ≡ false
    → (r ≡ room) × (confidence_floor ≤ confidence)
floored_room r room c confidence h n = elim (Bool-cases (ltb c confidence_floor)) [
  | inl low ↦
      let e : ("unknown", c) ≡ (room, confidence) = simp low at h in
      let e' : "unknown" ≡ room = ap (λ p. p.0) e in
      let t = (eq_iff room "unknown").1 (sym e') in absurd (clash (str_eq room "unknown") t n)
  | inr high ↦
      let e : (r, c) ≡ (room, confidence) = simp high at h in
      let d : c ≡ confidence = ap (λ p. p.1) e in (ap (λ p. p.0) e, ground arith)
]

agreed-IsNearest :
    (live : Option ℕ) (best : ℕ) (rs ws : List Ranked) (room : String) (confidence : ℕ)
    → ((r : Ranked) → Memᴰ r rs → best ≤ r.dist)
    → winners_at best rs ≡ ws
    → agreed live best rs ws ≡ (room, confidence)
    → str_eq room "unknown" ≡ false
    → IsNearest rs room confidence
unfolding agreed
agreed-IsNearest live best rs [] room confidence low e h n =
    let e' : "unknown" ≡ room = ap (λ p. p.0) h in
    absurd (clash (str_eq room "unknown") ((eq_iff room "unknown").1 (sym e')) n)
agreed-IsNearest live best rs (w ∷ ws) room confidence low e h n =
    elim (Bool-cases (any (λ x. not (str_eq x.room w.room)) ws)) [
      | inl differ ↦
          let e' : ("unknown", 0) ≡ (room, confidence) = simp differ at h in
          let e'' : "unknown" ≡ room = ap (λ p. p.0) e' in
          absurd (clash (str_eq room "unknown") ((eq_iff room "unknown").1 (sym e'')) n)
      | inr same ↦
          let (a, b) = floored_room w.room room _ confidence (simp same at h) n in
          let (m, d) = mem-select (λ r. r.dist == best) rs w (rw e (Memᴰ.head refl)) in
          let d' : w.dist ≡ best = ground arith in
          record {
            winner = w;
            listed = m;
            named = a;
            nearest = λ r i. let l = low r i in ground arith;
            alone = λ r i q.
                by_winner r (rw e at (mem-select_of (λ x. x.dist == best) rs r i (ground arith)))
                  same
                ∙ a;
            sure = b;
          }
    ]
  where
    by_winner :
        (r : Ranked)
        → Memᴰ r (w ∷ ws)
        → any (λ x. not (str_eq x.room w.room)) ws ≡ false
        → r.room ≡ w.room
    by_winner r (Memᴰ.head q) s = ap (λ x. x.room) q
    by_winner r (Memᴰ.tail m) s =
        let f = none_passes (λ x. not (str_eq x.room w.room)) ws r s m in
        (eq_iff r.room w.room).0 (ground arith)

ranked-IsNearest :
    (live : Option ℕ) (rs : List Ranked) (room : String) (confidence : ℕ)
    → classify_ranked live rs ≡ (room, confidence)
    → str_eq room "unknown" ≡ false
    → IsNearest rs room confidence
unfolding classify_ranked
ranked-IsNearest live [] room confidence h n =
    let e' : "unknown" ≡ room = ap (λ p. p.0) h in
    absurd (clash (str_eq room "unknown") ((eq_iff room "unknown").1 (sym e')) n)
ranked-IsNearest live (r ∷ rs) room confidence h n =
    agreed-IsNearest live (least r.dist (dists rs)) (r ∷ rs)
      (winners_at (least r.dist (dists rs)) (r ∷ rs)) room confidence below refl h n
  where
    below : (x : Ranked) → Memᴰ x (r ∷ rs) → least r.dist (dists rs) ≤ x.dist
    below x (Memᴰ.head e) =
        let d : x.dist ≡ r.dist = ap (λ y. y.dist) e in rw d (least_below r.dist (dists rs))
    below x (Memᴰ.tail m) = least_mem r.dist rs x m

-- Where the classifier names a room, that room is at the least distance among the rooms that
-- compete on the node or the zone, no other room is as near, and the confidence reaches the floor.
pub classify-IsNearest :
    (casefold : String → String) (node : String) (live : Option ℕ) (fingerprints : List Fingerprint)
    (zone room : String) (confidence : ℕ)
    → classify casefold node live fingerprints zone ≡ (room, confidence)
    → str_eq room "unknown" ≡ false
    → IsNearest
        (rank casefold (strip_text node) (strip_text zone) live fingerprints)
        room
        confidence
unfolding classify
classify-IsNearest casefold node live fingerprints zone room confidence h n =
    elim (Bool-cases (str_eq (strip_text node) "" && str_eq (strip_text zone) "")) [
      | inl nowhere ↦
          let e : ("unknown", 0) ≡ (room, confidence) = simp nowhere at h in
          let e' : "unknown" ≡ room = ap (λ p. p.0) e in
          absurd (clash (str_eq room "unknown") ((eq_iff room "unknown").1 (sym e')) n)
      | inr somewhere ↦
          ranked-IsNearest live
            (rank casefold (strip_text node) (strip_text zone) live fingerprints) room confidence
            (simp somewhere at h) n
    ]
