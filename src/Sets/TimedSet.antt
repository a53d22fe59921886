-- ===== src/Sets/TimedSet.antt =====
-- crawler/timedset.go. The clock's reading is an argument of `put`.
pub mod Laws
pub mod Oldest
use ww_webcrawler.Prelude.{
  ℕ, ◌-◌, ◌^◌, Bool, true, false, Option, none, some, List, [], ◌∷◌, Comparable, if◌then◌else◌, ℤ,
  signed32, inc32, dec32,
}
use ww_webcrawler.Sets.SyncMap.{load, store, delete, is_some}
use ww_webcrawler.Sets.Time.{Time, before, unix}

pub record TimedSet (A : Type 0) : Type 0 where
  pub count : ℕ
  pub sm : List (A × Time)

module _ {A : Type 0} where
  unfoldable pub new_timed_set : TimedSet A
  new_timed_set = record { count = 0; sm = [] }

  unfoldable pub size : TimedSet A → ℤ
  size s = signed32 s.count

module _ {A : Type 0} ⦃c : Comparable A⦄ where
  unfoldable pub put : TimedSet A → A → (now : Time) → TimedSet A
  put s t now = record {
    count = if is_some (load t s.sm) then s.count else inc32 s.count;
    sm = store t now s.sm;
  }

  unfoldable pub pop : TimedSet A → A → Bool × TimedSet A
  pop s k = (
    is_some (load k s.sm),
    record { count = if is_some (load k s.sm) then dec32 s.count else s.count; sm = delete k s.sm },
  )

  unfoldable pub has : TimedSet A → A → Bool
  has s t = is_some (load t s.sm)

  -- The `Range` of `PopOldest` over the entries that it visits: the oldest so far and its time.
  unfoldable pub find_oldest : A → Time → List (A × Time) → A
  unfolding before
  find_oldest k oldest [] = k
  find_oldest k oldest ((j, time) ∷ entries) =
      find_oldest (if before time oldest then j else k)
        (if before time oldest then time else oldest) entries

  -- `k` points to a local variable, so the test for nil in the source never holds.
  unfoldable pub pop_oldest : (entries : List (A × Time)) → TimedSet A → A × Bool × TimedSet A
  unfolding find_oldest unix pop
  pop_oldest entries s =
      let k = find_oldest c.nil_value (unix (2 ^ 63 - 1)) entries in (k, (pop s k).0, (pop s k).1)
