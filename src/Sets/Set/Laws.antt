-- ===== src/Sets/Set/Laws.antt =====
-- `Set` against a membership test and a number of elements.
use ww_webcrawler.Prelude.{
  ◌%◌, ◌^◌, ◌<◌, ◌≡◌, refl, true, false, ◌||◌, some, Comparable, ◌=?◌, if◌then◌else◌, length, pos,
  signed32-small, inc32-mod, dec32-mod, arith,
}
use ww_webcrawler.Sets.SyncMap.{
  load, delete, IsMap, load-store, load-delete, store-IsMap, delete-IsMap, length-store,
  length-delete, store_same,
}
use ww_webcrawler.Sets.Set.{Set, new_set, put, has, pop, size}

module _ {A : Type 0} ⦃c : Comparable A⦄ where
  -- The counter is the number of the keys, as far as 32 bits tell.
  pub record IsValid (s : Set A) : Type 0 where
    pub is_map : IsMap s.sm
    pub counted : s.count ≡ length s.sm % 2 ^ 32

  pub new_set-IsValid : IsValid new_set
  unfolding new_set
  new_set-IsValid = record { is_map = tt; counted = refl }

  -- `Put` adds the element and no other to a consistent set, which stays consistent: its counter
  -- too.
  pub put_lem :
      (s : Set A) (t : A)
      → IsValid s
      → IsValid (put s t) × ((k : A) → has (put s t) k ≡ (t =? k) || has s k)
  unfolding put has
  put_lem s t v = (
    record {
      is_map = store-IsMap t true s.sm v.is_map;
      counted = ground (arith, v.counted, length-store t true s.sm, inc32-mod (length s.sm));
    },
    λ k. ground (arith, load-store t k true s.sm),
  )

  -- On a consistent set `Pop` says whether the element was there and takes it and no other out; the
  -- set stays consistent, its counter too.
  pub pop_lem :
      (s : Set A) (t : A)
      → IsValid s
      → ((pop s t).0 ≡ has s t)
        × IsValid (pop s t).1
        × ((k : A) → has (pop s t).1 k ≡ (if t =? k then false else has s k))
  unfolding pop has
  pop_lem s t v = (
    refl,
    record {
      is_map = delete-IsMap t s.sm v.is_map;
      counted = ground (arith, v.counted, length-delete t s.sm, dec32-mod (length (delete t s.sm)));
    },
    λ k. ground (arith, load-delete t k s.sm),
  )

  -- With fewer than 2 ^ 31 elements `Size` of a consistent set is their number.
  pub size_lem : (s : Set A) → IsValid s → length s.sm < 2 ^ 31 → size s ≡ pos (length s.sm)
  unfolding size
  size_lem s v h = rw v.counted (signed32-small (length s.sm) h)

  -- `Put` of an element that is there changes nothing.
  pub put_present : (s : Set A) (t : A) → load t s.sm ≡ some true → put s t ≡ s
  unfolding put
  put_present s t h = rw (h, store_same t true s.sm h)
