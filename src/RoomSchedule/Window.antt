-- ===== src/RoomSchedule/Window.antt =====
-- The windows of room_schedule.py on a clock face: `_contains` and `_overlaps` against the time that
-- has passed since a window's start.
use device_weave.Prelude.{
  ℕ, ◌+◌, ◌-◌, ◌%◌, ◌<◌, ◌≡◌, ◌∙◌, sym, &&-eq-true, ◌↔◌, Bool, true, ◌&&◌, List, [], ◌∷◌, arith,
  ltb,
}
use device_weave.Prelude.Text.{String, codes}
use device_weave.RoomSchedule.{
  is_clock, is_clock_codes, minutes, minutes_codes, in_span, contains, overlaps,
}
use device_weave.RoomSchedule.Disjoint.{overlaps_complete, any_below-witness}

-- The minutes that a clock shows from `start` until `minute`, going round at midnight.
abbrev pub since : ℕ → ℕ → ℕ
since start minute = (minute + (1440 - start)) % 1440

-- The window opens at `start` and closes before `end` comes round.
unfoldable pub is_open : String → String → ℕ → Bool
is_open start end minute = ltb (since (minutes start) minute) (since (minutes start) (minutes end))

minutes_codes-lt : (s : List ℕ) → is_clock_codes s ≡ true → minutes_codes s < 1440
unfolding is_clock_codes minutes_codes
minutes_codes-lt [] h = cc
minutes_codes-lt (a ∷ []) h = cc
minutes_codes-lt (a ∷ b ∷ []) h = cc
minutes_codes-lt (a ∷ b ∷ c ∷ []) h = cc
minutes_codes-lt (a ∷ b ∷ c ∷ d ∷ []) h = cc
minutes_codes-lt (a ∷ b ∷ c ∷ d ∷ e ∷ []) h = ground arith
minutes_codes-lt (a ∷ b ∷ c ∷ d ∷ e ∷ f ∷ s) h = cc

minutes-lt : (s : String) → is_clock s ≡ true → minutes s < 1440
unfolding is_clock minutes
minutes-lt s h = minutes_codes-lt (codes s) h

in_span-since :
    (s e m : ℕ) → s < 1440 → e < 1440 → m < 1440 → in_span s e m ≡ ltb (since s m) (since s e)
unfolding in_span
in_span-since s e m a b c = ground arith

contains-is_open :
    (start end : String) (minute : ℕ)
    → (is_clock start && is_clock end) ≡ true
    → ltb minute 1440 ≡ true
    → contains start end minute ≡ is_open start end minute
unfolding contains is_open
contains-is_open start end minute clocks b =
    let (s, e) = &&-eq-true (is_clock start) _ clocks in
    in_span-since (minutes start) (minutes end) minute (minutes-lt start s) (minutes-lt end e)
      (ground arith)

-- For four texts that read as HH:MM, `overlaps` holds exactly when both windows are open at some
-- minute of the day. A window is open where fewer minutes have passed since its start, counted
-- round midnight, than there are from its start to its end.
pub overlaps-is_open :
    (start end other_start other_end : String)
    → (is_clock start && is_clock end) ≡ true
    → (is_clock other_start && is_clock other_end) ≡ true
    → (overlaps start end other_start other_end ≡ true) ↔ (
        (minute : ℕ) × (ltb minute 1440 ≡ true)
        × ((is_open start end minute && is_open other_start other_end minute) ≡ true))
unfolding overlaps
overlaps-is_open start end other_start other_end clocks others = (
  λ h.
      let (minute, b, q) =
        any_below-witness (λ m. contains start end m && contains other_start other_end m) 1440
          (simp others at h) in
      (
        minute,
        b,
        rw
            (
              sym (contains-is_open start end minute clocks b),
              sym (contains-is_open other_start other_end minute others b),
            )
            q,
      ),
  λ (minute, b, q).
      let (h, k) = &&-eq-true (is_open start end minute) _ q in
      overlaps_complete start end other_start other_end minute others b
        (contains-is_open start end minute clocks b ∙ h)
        (contains-is_open other_start other_end minute others b ∙ k),
)
