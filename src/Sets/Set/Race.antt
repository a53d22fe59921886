-- ===== src/Sets/Set/Race.antt =====
-- `Put` and `Pop` of crawler/set.go by several goroutines: each call of the map and of the counter is
-- a step of its own.
mod Bools
mod Moves
pub mod Apart
use ww_webcrawler.Prelude.{
  ℕ, zero, suc, ◌+◌, ◌%◌, ◌^◌, ◌<◌, ◌≡◌, refl, ap, sym, ◌∙◌, Bool, true, false, not, Bool-cases,
  inl, inr, Option, some, none, List, [], ◌∷◌, Comparable, beq_self, ◌=?◌, if◌then◌else◌, length,
  inc32, dec32, inc32-mod, dec32-mod, arith,
}
use ww_webcrawler.Sets.SyncMap.{
  load, store, delete, is_some, IsMap, store_same, load-store, load-delete, store-IsMap,
  length-store, length-delete,
}
use ww_webcrawler.Sets.Set.{Set, put, has, pop}
use ww_webcrawler.Sets.Set.Laws.{IsValid}

-- A goroutine in a call: `Put` before `Load`, between `Load` and the counter, and before `Store`;
-- `Pop` before `LoadAndDelete`, and between it and the counter.
pub data Caller (A : Type 0) : Type 0 where
  putting absent storing : A → Caller A
  popping deleted : A → Caller A
  returned : Caller A

module _ {A : Type 0} ⦃c : Comparable A⦄ where
  -- One step of one goroutine on the shared set.
  unfoldable pub move : Caller A → Set A → Caller A × Set A
  move (putting t) s = (if is_some (load t s.sm) then storing t else absent t, s)
  move (absent t) s = (storing t, record s { count = inc32 s.count })
  move (storing t) s = (returned, record s { sm = store t true s.sm })
  move (popping t) s =
      (if is_some (load t s.sm) then deleted t else returned, record s { sm = delete t s.sm })
  move (deleted t) s = (returned, record s { count = dec32 s.count })
  move returned s = (returned, s)

  -- A goroutine that runs alone, for a number of steps.
  unfoldable pub alone : ℕ → Caller A → Set A → Caller A × Set A
  unfolding move
  alone zero x s = (x, s)
  alone (suc n) x s = alone n (move x s).0 (move x s).1

  -- Undisturbed, the steps of a call make the call: three of `Put`, two of `Pop`.
  pub alone_lem :
      (s : Set A) (t : A)
      → (alone 3 (putting t) s ≡ (returned, put s t))
        × (alone 2 (popping t) s ≡ (returned, (pop s t).1))
  unfolding alone put pop
  alone_lem s t = elim (Bool-cases (is_some (load t s.sm))) [
    | inl there ↦ (rw there refl, rw there refl)
    | inr missing ↦ (rw missing refl, rw missing refl)
  ]

  -- Two goroutines under a schedule, which says whether the next step is the second one's.
  unfoldable pub race : List Bool → Caller A → Caller A → Set A → Caller A × Caller A × Set A
  unfolding move
  race [] x y s = (x, y, s)
  race (false ∷ turns) x y s = race turns (move x s).0 y (move x s).1
  race (true ∷ turns) x y s = race turns x (move y s).0 (move y s).1

  -- Two goroutines put the same element, which is not in a consistent set, each step of the one
  -- before that of the other: the element is in the set once, and the counter is one above the
  -- number of elements.
  pub put_twice_overcounts :
      (s : Set A) (t : A)
      → IsValid s
      → load t s.sm ≡ none
      → (s' : Set A) × (race
            (false ∷ true ∷ false ∷ true ∷ false ∷ true ∷ [])
            (putting t)
            (putting t)
            s
          ≡ (returned, returned, s'))
        × IsMap s'.sm
        × (has s' t ≡ true)
        × (s'.count ≡ (length s'.sm + 1) % 2 ^ 32)
  unfolding race has
  put_twice_overcounts s t v h =
      let once = store t true s.sm in
      let there : load t once ≡ some true = load-store t t true s.sm ∙ rw (beq_self t) refl in
      let again : store t true once ≡ once = store_same t true once there in
      (
        record { count = inc32 (inc32 s.count); sm = store t true once },
        rw h refl,
        rw again (store-IsMap t true s.sm v.is_map),
        rw (again, there) refl,
        rw again (omega (arith, v.counted, inc32-mod (length s.sm), grown)),
      )
    where
      grown : length (store t true s.sm) ≡ length s.sm + 1
      grown = length-store t true s.sm ∙ rw h refl

  -- A goroutine has seen an element of a consistent set when another takes it out, and puts it after
  -- that: it is in the set, and the counter is one below the number of elements.
  pub put_after_pop_undercounts :
      (s : Set A) (t : A)
      → IsValid s
      → load t s.sm ≡ some true
      → (s' : Set A) × (race (false ∷ true ∷ true ∷ false ∷ []) (putting t) (popping t) s
          ≡ (returned, returned, s'))
        × (has s' t ≡ true)
        × (inc32 s'.count ≡ length s'.sm % 2 ^ 32)
  unfolding race has
  put_after_pop_undercounts s t v h =
      let left = delete t s.sm in
      let shrunk : length left + 1 ≡ length s.sm = rw (sym (length-delete t s.sm)) (rw h refl) in
      let absent_now : load t left ≡ none = load-delete t t s.sm v.is_map ∙ rw (beq_self t) refl in
      (
        record { count = dec32 s.count; sm = store t true left },
        rw h refl,
        rw (load-store t t true left) (rw (beq_self t) refl),
        rw (length-store t true left) (rw absent_now (omega (arith, v.counted, shrunk))),
      )
