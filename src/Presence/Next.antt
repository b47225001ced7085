-- ===== src/Presence/Next.antt =====
-- What one run of the poller stores: the house of its poll, or what was there.
use mathlib.Core.List.{Memᴰ}
use device_weave.Prelude.{
  ℕ, suc, ◌≡◌, refl, sym, inl, inr, ◌⊎◌, Bool, true, false, Option, none, some, List, [], ◌∷◌,
  arith, if◌then◌else◌, ltb,
}
use device_weave.Prelude.Int.{ℤ, pos, negsuc}
use device_weave.Prelude.Text.{String}
use device_weave.Presence.Data.{Row, Group, Person, Home}
use device_weave.Presence.Tracked.{group_tracked}
use device_weave.Presence.State.{
  people_after, people_of, compute_presence, at_least_one, aggregate, unless_untracked,
}
use device_weave.Presence.Store.{apply_stale, or_no_home}
use device_weave.Presence.Poll.{
  Poll, poll, with_trouble, with_clients, write_updated, mark_stale, if_written, reads_home,
}

-- A run that reads the clients and stores what it makes of them.
abbrev pub is_read : Option String → Bool → Bool
is_read none written = written
is_read (some _) written = false

abbrev pub counts : Poll → Bool
counts p = is_read p.trouble p.is_written

-- How many runs of a sequence count.
abbrev pub counted : List Poll → ℕ
counted [] = 0
counted (p ∷ ps) = let rest = counted ps in if counts p then suc rest else rest

pub at_least_one_lem : (t : ℤ) → ltb 0 (at_least_one t) ≡ true
at_least_one_lem (pos n) = ground arith
at_least_one_lem (negsuc n) = refl

-- The stored item after a run shows the people and the occupancy that were there before.
abbrev pub IsSame : Option Home → Option Home → Type 0
IsSame o q = (people_of q ≡ people_of o) × (reads_home q ≡ reads_home o)

if_written-IsSame :
    (w : Bool) (o : Option Home) (item : Home)
    → IsSame o (some item)
    → IsSame o (if_written w o item)
if_written-IsSame true o item h = h
if_written-IsSame false o item h = (refl, refl)

stale_people : (o : Option Home) → (or_no_home o).people ≡ people_of o
stale_people none = refl
stale_people (some h) = refl

mark_stale-IsSame :
    (o : Option Home) (reason : String) (p : Poll) → IsSame o (mark_stale o reason p)
unfolding mark_stale apply_stale
mark_stale-IsSame o reason p = if_written-IsSame p.is_written o _ (belted (reads_home o) refl)
  where
    belted :
        (b : Bool)
        → reads_home o ≡ b
        → IsSame o (
            some (
              if b
              then record (apply_stale o reason p.now) { is_home = some true }
              else apply_stale o reason p.now))
    belted true e = (stale_people o, sym e)
    belted false e = (stale_people o, refl)

module _ (casefold : String → String) (t : ℤ) (tracked : List Row) where
  abbrev pub people_next : Option Home → Poll → List Person
  people_next o p =
      people_after casefold (people_of o) (at_least_one t) p.clients
        (group_tracked casefold tracked)

  -- What a run stores: the house of the poll, or what was there.
  abbrev pub IsNext : Bool → Option Home → Poll → Option Home → Type 0
  IsNext b o p q =
      ((b ≡ true) × (q ≡ some (aggregate (people_next o p) p.now))) ⊎ ((b ≡ false) × IsSame o q)

  computed :
      (gs : List Group) (g : Group) (h : Home) → Memᴰ g gs → unless_untracked casefold gs h ≡ some h
  computed [] g h m = elim m [ ]
  computed (x ∷ gs) g h m = refl

  written-IsNext :
      (w : Bool) (o : Option Home) (p : Poll)
      → IsNext w o p (if_written w o (aggregate (people_next o p) p.now))
  written-IsNext true o p = inl (refl, refl)
  written-IsNext false o p = inr (refl, (refl, refl))

module _ (casefold : String → String) (t : ℤ) where
  no_groups : (g : Group) → Memᴰ g (group_tracked casefold []) → ⊥
  unfolding group_tracked
  no_groups g m = elim m [ ]

  clients-IsNext :
      (tracked : List Row) (o : Option Home) (p : Poll) (g : Group)
      → Memᴰ g (group_tracked casefold tracked)
      → IsNext casefold t tracked p.is_written o p (with_clients casefold t o p tracked)
  unfolding with_clients write_updated compute_presence
  clients-IsNext [] o p g m = absurd (no_groups g m)
  clients-IsNext (r ∷ rs) o p g m =
      let gs = group_tracked casefold (r ∷ rs) in
      simp
        (computed casefold t (r ∷ rs) gs g (aggregate (people_next casefold t (r ∷ rs) o p) p.now)
          m)
        (written-IsNext casefold t (r ∷ rs) p.is_written o p)

  trouble-IsNext :
      (tracked : List Row) (o : Option Home) (p : Poll) (g : Group) (trouble : Option String)
      → Memᴰ g (group_tracked casefold tracked)
      → IsNext casefold t tracked
          (is_read trouble p.is_written)
          o
          p
          (with_trouble casefold t o p tracked trouble)
  unfolding with_trouble
  trouble-IsNext tracked o p g none m = clients-IsNext tracked o p g m
  trouble-IsNext tracked o p g (some reason) m = inr (refl, mark_stale-IsSame o reason p)

  pub poll-IsNext :
      (tracked : List Row) (o : Option Home) (p : Poll) (g : Group)
      → Memᴰ g (group_tracked casefold tracked)
      → IsNext casefold t tracked (counts p) o p (poll casefold t tracked o p)
  unfolding poll
  poll-IsNext tracked o p g m = trouble-IsNext tracked o p g p.trouble m
