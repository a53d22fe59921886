-- ===== src/Sets/TimedSet/Oldest.antt =====
-- `PopOldest` starts from a time that is meant to be far ahead.
use ww_webcrawler.Prelude.{◌-◌, ◌^◌, ◌≤◌, ◌≡◌, refl, List, [], ◌∷◌, Comparable, arith, false}
use ww_webcrawler.Sets.Time.{Time, before, unix}
use ww_webcrawler.Sets.TimedSet.{TimedSet, pop, find_oldest, pop_oldest}

-- Every time is from year 1 on.
abbrev pub AllModern : {A : Type 0} → List (A × Time) → Type 0
AllModern [] = Unit {0}
AllModern ((k, time) ∷ entries) = (2 ^ 63 ≤ time.sec) × AllModern entries

faraway_passed : (time : Time) → 2 ^ 63 ≤ time.sec → before time (unix (2 ^ 63 - 1)) ≡ false
unfolding before unix
faraway_passed time h = ground arith

module _ {A : Type 0} ⦃c : Comparable A⦄ where
  find_oldest_none :
      (k : A) (entries : List (A × Time))
      → AllModern entries
      → find_oldest k (unix (2 ^ 63 - 1)) entries ≡ k
  unfolding find_oldest
  find_oldest_none k [] h = refl
  find_oldest_none k ((j, time) ∷ entries) h =
      rw (faraway_passed time h.0) (find_oldest_none k entries h.1)

  -- Where every entry's time is from year 1 on, `PopOldest` finds no entry before its start, which
  -- wraps round into the past, and pops the zero value instead.
  pub pop_oldest_zero :
      (s : TimedSet A) (entries : List (A × Time))
      → AllModern entries
      → pop_oldest entries s ≡ (c.nil_value, (pop s c.nil_value).0, (pop s c.nil_value).1)
  unfolding pop_oldest
  pop_oldest_zero s entries h = rw (find_oldest_none c.nil_value entries h)
