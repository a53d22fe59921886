-- ===== src/Sets/Set/Random.antt =====
-- `PopRandom`: it takes an element of the set out, and which one it is.
use ww_webcrawler.Prelude.{
  ℕ, ◌+◌, ◌%◌, ◌^◌, ◌<◌, ◌≡◌, sym, ap, ◌∙◌, true, false, inl, inr, List, [], ◌∷◌, ◌++◌, Comparable,
  ◌=?◌, if◌then◌else◌, length, done, ◌==◌, Bool-cases, ℤ, magnitude, arith,
}
use native.Mathlib.Nat.{mod-eq_of_lt}
use ww_webcrawler.Sets.SyncMap.{elem, Visits}
use ww_webcrawler.Sets.Set.{Set, has, pop, size, walk, pop_random}
use ww_webcrawler.Sets.Set.Laws.{IsValid, pop_lem, size_lem}

module _ {A : Type 0} ⦃c : Comparable A⦄ where
  has_visited : (s : Set A) (k : A) (keys : List A) → Visits s.sm keys → has s k ≡ elem k keys
  unfolding has
  has_visited s k keys visits = sym (visits.all_keys k)

  elem_later : (k j : A) (js : List A) → elem k js ≡ true → elem k (j ∷ js) ≡ true
  elem_later k j js h = ground arith

  elem_here : (k : A) (js : List A) → elem k (k ∷ js) ≡ true
  elem_here k js = ground (arith, c.beq_iff k k)

  -- With no draw of 0 the walk ends on one of the keys that it visits.
  walk_lem :
      (s : ℤ) (draw : ℕ → ℕ) (n : ℕ) (k j : A) (js : List A)
      → ((m : ℕ) → 0 < draw m)
      → (r : A) × (walk s draw n k (j ∷ js) ≡ done r) × (elem r (j ∷ js) ≡ true)
  unfolding walk
  walk_lem s draw n k j [] h = (j, ground (arith, h n), elem_here j [])
  walk_lem s draw n k j (i ∷ is) h =
      let nonzero : (draw n == 0) ≡ false = ground (arith, h n) in
      let (r, e, f) = walk_lem s draw (n + 1) j i is h in
      elim (Bool-cases (magnitude s % draw n == 0)) [
        | inl stop ↦ (j, rw (nonzero, stop), elem_here j (i ∷ is))
        | inr more ↦ (r, rw (nonzero, more) e, elem_later r j (i ∷ is) f)
      ]

  -- With draws above the size the walk goes on to the last key.
  walk_last :
      (s : ℤ) (draw : ℕ → ℕ) (n : ℕ) (k j : A) (js : List A)
      → 0 < magnitude s
      → ((m : ℕ) → magnitude s < draw m)
      → walk s draw n k (js ++ j ∷ []) ≡ done j
  unfolding walk
  walk_last s draw n k j [] p h = ground (arith, h n)
  walk_last s draw n k j (i ∷ is) p h =
      let nonzero : (draw n == 0) ≡ false = ground (arith, h n) in
      let more : (magnitude s % draw n == 0) ≡ false = ground (arith, h n, mod-eq_of_lt (h n)) in
      rw (nonzero, more) (walk_last s draw (n + 1) i j is p h)

  -- On a consistent set that is not empty `PopRandom` takes out one of its elements and no other,
  -- as long as no draw is 0.
  pub pop_random_lem :
      (s : Set A) (j : A) (js : List A) (draw : ℕ → ℕ)
      → IsValid s
      → Visits s.sm (j ∷ js)
      → ((m : ℕ) → 0 < draw m)
      → (k : A) × (s' : Set A) × (pop_random (j ∷ js) draw s ≡ done (k, true, s'))
        × (has s k ≡ true)
        × IsValid s'
        × ((i : A) → has s' i ≡ (if k =? i then false else has s i))
  unfolding pop_random
  pop_random_lem s j js draw v visits h =
      let (k, e, f) = walk_lem (size s) draw 0 c.nil_value j js h in
      let (there, valid, others) = pop_lem s k v in
      let present : has s k ≡ true = has_visited s k (j ∷ js) visits ∙ f in
      (
        k,
        (pop s k).1,
        rw e (ap (λ b. done (k, b, (pop s k).1)) (there ∙ present)),
        present,
        valid,
        others,
      )

  -- On a consistent set of one element or more and fewer than 2 ^ 31, where each draw is above
  -- their number, the element that `PopRandom` takes out is the last visited.
  pub pop_random_last :
      (s : Set A) (j : A) (js : List A) (draw : ℕ → ℕ)
      → IsValid s
      → 0 < length s.sm
      → length s.sm < 2 ^ 31
      → ((m : ℕ) → length s.sm < draw m)
      → pop_random (js ++ j ∷ []) draw s ≡ done (j, has s j, (pop s j).1)
  unfolding pop_random
  pop_random_last s j js draw v p small h =
      let size_is = size_lem s v small in
      rw (walk_last (size s) draw 0 c.nil_value j js (rw size_is p) (λ m. rw size_is (h m)))
        (ap (λ b. done (j, b, (pop s j).1)) (pop_lem s j v).0)
