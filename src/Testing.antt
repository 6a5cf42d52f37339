-- ===== src/Testing.antt =====
-- internal/testutil: the clock that tests control, and the helper for the keys of a map. (`Ptr` makes
-- a pointer, for which the model has no counterpart but the value.)
use ninjascale.Prelude.{◌≡◌, ◌∙◌, List, [], ◌∷◌, ◌++◌, ℤ, pos, ◌+ℤ◌, int_laws, map}
use ninjascale.Time.{Time, Duration}

pub record FakeClock : Type 0 where
  pub now : Time

abbrev pub new_fake_clock : Time → FakeClock
new_fake_clock t = record { now = t }

-- `Advance` and `Set`.
pub data ClockCall : Type 0 where
  advance : Duration → ClockCall
  set_time : Time → ClockCall

unfoldable pub on_clock : ClockCall → FakeClock → FakeClock
on_clock (advance d) c = record c { now = c.now +ℤ d }
on_clock (set_time t) c = record c { now = t }

unfoldable pub after_calls : List ClockCall → FakeClock → FakeClock
after_calls [] c = c
after_calls (x ∷ xs) c = after_calls xs (on_clock x c)

-- The keys, in the order of the list.
unfoldable pub keys : {K V : Type 0} → List (K × V) → List K
keys [] = []
keys ((k, v) ∷ m) = k ∷ keys m

-- What the calls since the last `Set` add up to.
abbrev pub advanced : List Duration → ℤ
advanced [] = pos 0
advanced (d ∷ ds) = d +ℤ advanced ds

-- The time that a controlled clock shows is the last one that was set, and what it was advanced by
-- since then, whatever came before.
pub after_calls-now :
    (before : List ClockCall) (t : Time) (ds : List Duration) (c : FakeClock)
    → (after_calls (before ++ (set_time t ∷ map advance ds)) c).now ≡ t +ℤ advanced ds
unfolding after_calls on_clock
after_calls-now [] t ds c = advance_all t ds
  where
    advance_all :
        (t : Time) (ds : List Duration)
        → (after_calls (map advance ds) (record { now = t })).now ≡ t +ℤ advanced ds
    advance_all t [] = omega int_laws
    advance_all t (d ∷ ds) = advance_all (t +ℤ d) ds ∙ (omega int_laws)
after_calls-now (x ∷ before) t ds c = after_calls-now before t ds (on_clock x c)
