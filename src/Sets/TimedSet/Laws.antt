-- ===== src/Sets/TimedSet/Laws.antt =====
-- `TimedSet` against a membership test and the times that it keeps.
use ww_webcrawler.Prelude.{
  ◌%◌, ◌^◌, ◌<◌, ◌≡◌, refl, none, some, Comparable, ◌=?◌, if◌then◌else◌, length, pos,
  signed32-small, inc32-mod, dec32-mod, arith,
}
use ww_webcrawler.Sets.SyncMap.{
  load, delete, IsMap, load-store, load-delete, store-IsMap, delete-IsMap, length-store,
  length-delete,
}
use ww_webcrawler.Sets.Time.{Time}
use ww_webcrawler.Sets.TimedSet.{TimedSet, new_timed_set, put, has, pop, size}

module _ {A : Type 0} ⦃c : Comparable A⦄ where
  pub record IsValid (s : TimedSet A) : Type 0 where
    pub is_map : IsMap s.sm
    pub counted : s.count ≡ length s.sm % 2 ^ 32

  pub new_timed_set-IsValid : IsValid new_timed_set
  unfolding new_timed_set
  new_timed_set-IsValid = record { is_map = tt; counted = refl }

  -- `Put` sets the time of the element and of no other in a consistent set, which stays consistent:
  -- its counter too.
  pub load-put :
      (s : TimedSet A) (t : A) (now : Time)
      → IsValid s
      → IsValid (put s t now)
        × ((k : A) → load k (put s t now).sm ≡ (if t =? k then some now else load k s.sm))
  unfolding put
  load-put s t now v = (
    record {
      is_map = store-IsMap t now s.sm v.is_map;
      counted = ground (arith, v.counted, length-store t now s.sm, inc32-mod (length s.sm));
    },
    λ k. load-store t k now s.sm,
  )

  -- On a consistent set `Pop` says whether the element was there and takes it and no other out; the
  -- set stays consistent, its counter too.
  pub load-pop :
      (s : TimedSet A) (t : A)
      → IsValid s
      → ((pop s t).0 ≡ has s t)
        × IsValid (pop s t).1
        × ((k : A) → load k (pop s t).1.sm ≡ (if t =? k then none else load k s.sm))
  unfolding pop has
  load-pop s t v = (
    refl,
    record {
      is_map = delete-IsMap t s.sm v.is_map;
      counted = ground (arith, v.counted, length-delete t s.sm, dec32-mod (length (delete t s.sm)));
    },
    λ k. load-delete t k s.sm v.is_map,
  )

  -- With fewer than 2 ^ 31 elements `Size` is their number.
  pub size_lem : (s : TimedSet A) → IsValid s → length s.sm < 2 ^ 31 → size s ≡ pos (length s.sm)
  unfolding size
  size_lem s v h = rw v.counted (signed32-small (length s.sm) h)
