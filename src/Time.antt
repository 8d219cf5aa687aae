-- ===== src/Time.antt =====
-- The comparison of 32-bit millisecond clocks that wrap: original/include/enet/time.h.
use enet_rs.Prelude.{
  ℕ, ◌+◌, ◌%◌, ◌<◌, ◌≡◌, Bool, true, false, not, leb, if◌then◌else◌, sub32, arith,
}

abbrev pub time_overflow : ℕ
time_overflow = 86400000

unfoldable pub time_less : ℕ → ℕ → Bool
time_less a b = leb time_overflow (sub32 a b)

unfoldable pub time_greater : ℕ → ℕ → Bool
time_greater a b = leb time_overflow (sub32 b a)

unfoldable pub time_less_equal : ℕ → ℕ → Bool
time_less_equal a b = not (time_greater a b)

unfoldable pub time_greater_equal : ℕ → ℕ → Bool
time_greater_equal a b = not (time_less a b)

unfoldable pub time_difference : ℕ → ℕ → ℕ
time_difference a b = if leb time_overflow (sub32 a b) then sub32 b a else sub32 a b

-- For any 32-bit clock reading a, also one just before the clock wraps, and any elapsed time d of
-- less than a day (86400000 ms): the reading d milliseconds later is not less than a and is greater
-- or equal, and the difference of the two readings, in either order, is d.
pub time_elapsed :
    (a d : ℕ)
    → a < 4294967296
    → d < time_overflow
    → (time_less ((a + d) % 4294967296) a ≡ false)
      × (time_greater_equal ((a + d) % 4294967296) a ≡ true)
      × (time_difference ((a + d) % 4294967296) a ≡ d)
      × (time_difference a ((a + d) % 4294967296) ≡ d)
unfolding time_less time_greater_equal time_difference
time_elapsed a d ha hd = ground arith
