-- ===== src/LaunchAuth/Clock.antt =====
-- Go's time.Time, as far as an authorization uses it: the seconds since the beginning of year 1, a
-- signed word of 64 bits, and the nanoseconds in the second.
use yokai.Prelude.{
  ℕ, suc, ◌+◌, ◌-◌, ◌^◌, ℤ, pos, negsuc, int_eq, int_lt, Bool, ◌&&◌, ◌||◌, ltb, leb, if◌then◌else◌,
}

pub record Time : Type 0 where
  pub sec : ℤ
  pub nsec : ℕ

-- The seconds from year 1 to 1970.
abbrev pub unix_offset : ℕ
unix_offset = 62135596800

-- time.Unix(s, 0): the sum wraps.
unfoldable pub unix_sec : ℤ → ℤ
unix_sec (pos s) =
    if ltb (s + unix_offset) (2 ^ 63)
    then pos (s + unix_offset)
    else negsuc (2 ^ 64 - 1 - (s + unix_offset))
unix_sec (negsuc n) =
    if leb unix_offset n then negsuc (n - unix_offset) else pos (unix_offset - 1 - n)

abbrev pub unix : ℤ → Time
unix s = record { sec = unix_sec s; nsec = 0 }

-- Unix(): the difference wraps.
unfoldable pub unix_of : ℤ → ℤ
unix_of (pos n) = if leb unix_offset n then pos (n - unix_offset) else negsuc (unix_offset - 1 - n)
unix_of (negsuc n) =
    if ltb (n + unix_offset) (2 ^ 63)
    then negsuc (n + unix_offset)
    else pos (2 ^ 64 - 1 - (n + unix_offset))

-- Add of whole seconds: the sum stops at the largest value.
unfoldable pub later_sec : ℕ → ℤ → ℤ
later_sec d (pos n) = if ltb (n + d) (2 ^ 63) then pos (n + d) else pos (2 ^ 63 - 1)
later_sec d (negsuc n) = if ltb n d then pos (d - suc n) else negsuc (n - d)

abbrev pub later : ℕ → Time → Time
later d t = record t { sec = later_sec d t.sec }

-- Add of minus some seconds: the difference stops at one above the smallest value.
unfoldable pub earlier_sec : ℕ → ℤ → ℤ
earlier_sec d (pos n) = if leb d n then pos (n - d) else negsuc (d - suc n)
earlier_sec d (negsuc n) = if ltb (n + d) (2 ^ 63) then negsuc (n + d) else negsuc (2 ^ 63 - 2)

abbrev pub earlier : ℕ → Time → Time
earlier d t = record t { sec = earlier_sec d t.sec }

-- Before; a.After(b) is b.Before(a).
unfoldable pub is_before : Time → Time → Bool
is_before a b = int_lt a.sec b.sec || (int_eq a.sec b.sec && ltb a.nsec b.nsec)
