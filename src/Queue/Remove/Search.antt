-- ===== src/Queue/Remove/Search.antt =====
-- `index_of` on a consistent queue. It looks from the last read on up to before the last write.
use ww_webcrawler.Prelude.{
  ℕ, ◌-◌, ◌<◌, ◌≤◌, ◌≡◌, ◌≢◌, inl, inr, ◌⊎◌, false, Option, none, some, Comparable, done, ltb, ◌==◌,
  Bool-cases, get_or, arith,
}
use ww_webcrawler.Queue.{UniqueQueue, index_of}
use ww_webcrawler.Queue.View.{IsValid}
use ww_webcrawler.Queue.Loops.{index_between_lem, or_search_lem, Finds, FindsEither}

module _ {A : Type 0} where
  -- The indices that `index_of` looks at in a queue that is not empty.
  abbrev pub IsSearched : UniqueQueue A → ℕ → Type 0
  IsSearched u j =
      (j < u.capacity)
      × (((u.head < u.tail) × (u.head ≤ j) × (j < u.tail))
          ⊎ ((u.tail ≤ u.head) × ((u.head ≤ j) ⊎ (j < u.tail))))

module _ {A : Type 0} ⦃c : Comparable A⦄ where
  abbrev pub IndexSearch : UniqueQueue A → A → Option ℕ → Type 0
  IndexSearch u t none =
      (u.size ≡ 0) ⊎ ((j : ℕ) → IsSearched u j → get_or u.items j c.nil_value ≢ t)
  IndexSearch u t (some i) =
      ((u.size == 0) ≡ false) × IsSearched u i × (get_or u.items i c.nil_value ≡ t)

  plain_search :
      (u : UniqueQueue A) (t : A) (r : Option ℕ)
      → (u.size == 0) ≡ false
      → u.head < u.tail
      → u.tail < u.capacity
      → Finds (u.tail - u.head) u.head u.items t r
      → IndexSearch u t r
  plain_search u t none s h l f = inr (λ j searched. f j (omega arith) (omega arith))
  plain_search u t (some i) s h l f = (s, (omega arith, inl (h, f.0, omega arith)), f.2)

  wrapped_search :
      (u : UniqueQueue A) (t : A) (r : Option ℕ)
      → (u.size == 0) ≡ false
      → u.tail ≤ u.head
      → u.head < u.capacity
      → FindsEither (u.capacity - u.head) u.head u.tail 0 u.items t r
      → IndexSearch u t r
  wrapped_search u t none s h l (f, g) = inr (λ j searched. elim (Bool-cases (ltb j u.tail)) [
    | inl front ↦ g j (omega arith) (ground arith)
    | inr back ↦ f j (ground arith) (omega arith)
  ])
  wrapped_search u t (some i) s h l (inl f) = (s, (omega arith, inr (h, inl f.0)), f.2)
  wrapped_search u t (some i) s h l (inr (f, g)) =
      (s, (omega arith, inr (h, inr (omega arith))), g.2)

  -- On a valid queue the search returns. An index that it finds is a searched one that holds the
  -- item; it finds none only if the queue is empty or no searched index holds the item.
  pub index_of_lem :
      (u : UniqueQueue A) (t : A)
      → IsValid u
      → (r : Option ℕ) × (index_of u t ≡ done r) × IndexSearch u t r
  unfolding index_of
  index_of_lem u t v = elim (Bool-cases (u.size == 0)) [
    | inl empty ↦ (none, rw empty, inl (ground arith))
    | inr some_left ↦ elim (Bool-cases (ltb u.head u.tail)) [
      | inl plain ↦
          let (r, e, f) = index_between_lem (u.tail - u.head) u.head u.items t (ground arith) in
          (r, rw (some_left, plain) e, plain_search u t r some_left (ground arith) v.tail_in f)
      | inr round ↦
          let (r, e, f) =
            or_search_lem (u.capacity - u.head) u.head u.tail 0 u.items t
              (omega (arith, v.items_length, v.head_in))
              (omega (arith, v.items_length, v.tail_in)) in
          (r, rw (some_left, round) e, wrapped_search u t r some_left (ground arith) v.head_in f)
    ]
  ]
