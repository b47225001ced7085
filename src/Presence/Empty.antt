-- ===== src/Presence/Empty.antt =====
-- The house is empty after enough polls that miss every tracked device.
use mathlib.Core.List.{Memᴰ}
use device_weave.Prelude.{
  ℕ, suc, ◌+◌, ◌≤◌, ◌≡◌, refl, ◌∙◌, inl, inr, true, false, Option, none, some, List, [], ◌∷◌, any,
  select, arith, Bool-cases, leb,
}
use device_weave.Prelude.Int.{ℤ}
use device_weave.Prelude.Text.{String}
use device_weave.Presence.Data.{Row, Client, Group, Person, Home}
use device_weave.Presence.Tracked.{group_tracked, best_match, latest}
use device_weave.Presence.State.{
  person_in, person_state, missed, people_of, at_least_one, aggregate, aggregate_of, house_of,
  people_after, misses_of, some_bool,
}
use device_weave.Presence.Poll.{Poll, poll, polls, reads_home}
use device_weave.Presence.Next.{counts, counted, at_least_one_lem, poll-IsNext, IsNext}
use device_weave.Presence.Debounce.{person_now, missed_next, skipped_next, IsMissing}

missed_count :
    (name : String) (prev : Option Person) (threshold : ℕ)
    → (missed name prev threshold).miss_count ≡ misses_of prev + 1
unfolding missed
missed_count name prev threshold = ground arith

missed_away :
    (name : String) (prev : Option Person) (threshold : ℕ)
    → leb threshold (misses_of prev + 1) ≡ true
    → some_bool (missed name prev threshold).is_home ≡ false
unfolding missed
missed_away name prev threshold h = simp h refl

nobody :
    (people : List Person)
    → any (λ p. some_bool p.is_home) people ≡ false
    → select (λ p. some_bool p.is_home) people ≡ []
nobody [] h = refl
nobody (p ∷ ps) h = ground (arith, nobody ps)

aggregate_nobody :
    (people : List Person) (now : String)
    → any (λ p. some_bool p.is_home) people ≡ false
    → reads_home (some (aggregate people now)) ≡ false
unfolding aggregate aggregate_of house_of latest
aggregate_nobody people now h = simp (nobody people h) refl

module _ (casefold : String → String) (t : ℤ) (tracked : List Row) where
  abbrev groups : List Group
  groups = group_tracked casefold tracked

  -- The state after a number of runs that missed everybody.
  abbrev IsLeaving : ℕ → Option Home → Type 0
  IsLeaving n o =
      ((g : Group) → Memᴰ g groups → n ≤ misses_of (person_now casefold t tracked o g))
      × (at_least_one t ≤ n → reads_home o ≡ false)

  all_away :
      (previous : List Person) (clients : List Client) (gs : List Group)
      → ((g : Group)
          → Memᴰ g gs
          → (best_match casefold g.devices clients ≡ none)
            × (leb (at_least_one t) (misses_of (person_in casefold previous g.person) + 1) ≡ true))
      → any (λ p. some_bool p.is_home) (people_after casefold previous (at_least_one t) clients gs)
        ≡ false
  unfolding people_after person_state
  all_away previous clients [] h = refl
  all_away previous clients (g ∷ gs) h =
      let (n, l) = h g (Memᴰ.head refl) in
      let a = missed_away g.person (person_in casefold previous g.person) (at_least_one t) l in
      let b = all_away previous clients gs (λ x i. h x (Memᴰ.tail i)) in simp (n, a) b

  abbrev IsQuiet : List Poll → Type 0
  IsQuiet ps = (g : Group) → Memᴰ g groups → IsMissing casefold t tracked g ps

  counting-IsLeaving :
      (g : Group) (o : Option Home) (p : Poll) (n : ℕ)
      → Memᴰ g groups
      → counts p ≡ true
      → ((x : Group) → Memᴰ x groups → best_match casefold x.devices p.clients ≡ none)
      → IsLeaving n o
      → IsLeaving (suc n) (poll casefold t tracked o p)
  counting-IsLeaving g o p n m c quiet (h, k) =
      (more, λ enough. gone enough (poll-IsNext casefold t tracked o p g m))
    where
      more :
          (x : Group)
          → Memᴰ x groups
          → suc n ≤ misses_of (person_now casefold t tracked (poll casefold t tracked o p) x)
      more x i =
          let e = missed_next casefold t tracked o p x i c (quiet x i) in
          let l = h x i in
          rw e (
            rw (missed_count x.person (person_now casefold t tracked o x) (at_least_one t))
              (omega arith))

      gone :
          at_least_one t ≤ suc n
          → IsNext casefold t tracked (counts p) o p (poll casefold t tracked o p)
          → reads_home (poll casefold t tracked o p) ≡ false
      gone enough (inl (_, e)) = rw e (
          aggregate_nobody _ p.now (
            all_away (people_of o) p.clients groups
              (λ x i. let l = h x i in (quiet x i, ground arith))))
      gone enough (inr (off, _)) = absurd (cc)

  other-IsLeaving :
      (g : Group) (o : Option Home) (p : Poll) (n : ℕ)
      → Memᴰ g groups
      → counts p ≡ false
      → IsLeaving n o
      → IsLeaving n (poll casefold t tracked o p)
  other-IsLeaving g o p n m c (h, k) = (
    (λ x i. rw (skipped_next casefold t tracked o p x i c) (h x i)),
    λ enough. kept enough (poll-IsNext casefold t tracked o p g m),
  )
    where
      kept :
          at_least_one t ≤ n
          → IsNext casefold t tracked (counts p) o p (poll casefold t tracked o p)
          → reads_home (poll casefold t tracked o p) ≡ false
      kept enough (inl (on, _)) = absurd (cc)
      kept enough (inr (_, s)) = s.1 ∙ k enough

  polls-IsLeaving :
      (g : Group) (o : Option Home) (ps : List Poll) (n total : ℕ)
      → Memᴰ g groups
      → IsQuiet ps
      → IsLeaving n o
      → total ≡ n + counted ps
      → IsLeaving total (polls casefold t tracked o ps)
  unfolding polls
  polls-IsLeaving g o [] n total m quiet l u = let u' : total ≡ n = omega arith in rw u' l
  polls-IsLeaving g o (p ∷ ps) n total m quiet l u = elim (Bool-cases (counts p)) [
    | inl here ↦
        polls-IsLeaving g (poll casefold t tracked o p) ps (suc n) total m (λ x i. (quiet x i).1)
          (counting-IsLeaving g o p n m here (λ x i. (quiet x i).0 here) l) (ground arith)
    | inr off ↦
        polls-IsLeaving g (poll casefold t tracked o p) ps n total m (λ x i. (quiet x i).1)
          (other-IsLeaving g o p n m off l) (ground arith)
  ]

  -- Whatever is stored, where some device is tracked the stored item says that nobody is at home
  -- after any sequence of runs in which every run that counts misses all tracked devices and in
  -- which as many runs count as the threshold asks for.
  pub house_empties :
      (g : Group) (o : Option Home) (ps : List Poll)
      → Memᴰ g (group_tracked casefold tracked)
      → ((x : Group) → Memᴰ x (group_tracked casefold tracked) → IsMissing casefold t tracked x ps)
      → at_least_one t ≤ counted ps
      → reads_home (polls casefold t tracked o ps) ≡ false
  house_empties g o ps m quiet enough =
      let start : at_least_one t ≤ 0 → reads_home o ≡ false = λ l. absurd (never l) in
      (polls-IsLeaving g o ps 0 (counted ps) m quiet ((λ x i. omega arith), start) (omega arith)).1
        enough
    where
      never : at_least_one t ≤ 0 → ⊥
      never l = let p = at_least_one_lem t in ground arith
