-- ===== src/Sets/Time.antt =====
-- Go's `time.Time`, as far as the program uses it. `sec` is the int64 of seconds since year 1,
-- written as the pattern sec + 2 ^ 63, so that the order of int64 is the order of patterns.
-- Readings of one clock compare alike by their monotonic and by their wall part.
use ww_webcrawler.Prelude.{ℕ, ◌+◌, ◌%◌, ◌^◌, Bool, ◌&&◌, ◌||◌, ltb, ◌==◌}

pub record Time : Type 0 where
  pub sec : ℕ
  pub nsec : ℕ

unfoldable pub before : Time → Time → Bool
before t u = ltb t.sec u.sec || t.sec == u.sec && ltb t.nsec u.nsec

-- `t.Add` of whole seconds
unfoldable pub add_seconds : Time → ℕ → Time
add_seconds t n = record t { sec = (t.sec + n) % 2 ^ 64 }

-- `time.Unix(s, 0)` for `s` from 0 on: year 1 is 62135596800 seconds before 1970.
unfoldable pub unix : ℕ → Time
unix s = record { sec = (2 ^ 63 + s + 62135596800) % 2 ^ 64; nsec = 0 }
