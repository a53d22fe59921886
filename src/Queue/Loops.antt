-- ===== src/Queue/Loops.antt =====
-- What the loops of the queue compute, while they stay inside the items.
use ww_webcrawler.Prelude.{
  ℕ, zero, suc, ◌+◌, ◌-◌, ◌<◌, ◌≤◌, ◌≡◌, ◌≢◌, refl, ap, ap₂, fun_ext, ◌∙◌, inl, inr, ◌⊎◌, false,
  ◌&&◌, Option, none, some, List, Comparable, ◌=?◌, Panics, done, ◌>>=◌, ltb, leb, ◌==◌,
  if◌then◌else◌, Bool-cases, length, get_or, set, length-set, get_or-set, load_at, store_at,
  load_at_inside, store_at_inside, arith,
}
use ww_webcrawler.Queue.{or_search, index_between, shift, shift_front}

module _ {A : Type 0} ⦃c : Comparable A⦄ where
  -- The first index from `i` on, below `i + n`, that holds `t`.
  abbrev pub Finds : ℕ → ℕ → List A → A → Option ℕ → Type 0
  Finds n i items t none = (j : ℕ) → i ≤ j → j < i + n → get_or items j c.nil_value ≢ t
  Finds n i items t (some j) =
      (i ≤ j)
      × (j < i + n)
      × (get_or items j c.nil_value ≡ t)
      × ((k : ℕ) → i ≤ k → k < j → get_or items k c.nil_value ≢ t)

  beq-ne : (x t : A) → (x =? t) ≡ false → x ≢ t
  beq-ne x t h e = cc ((c.beq_iff x t).1 e)

  Finds-later :
      (n i : ℕ) (items : List A) (t : A) (r : Option ℕ)
      → get_or items i c.nil_value ≢ t
      → Finds n (i + 1) items t r
      → Finds (suc n) i items t r
  Finds-later n i items t none miss f = λ j lo hi. elim (Bool-cases (i == j)) [
    | inl e ↦ ground (arith, miss)
    | inr e ↦ f j (ground arith) (omega arith)
  ]
  Finds-later n i items t (some j) miss f = (
    omega arith,
    omega arith,
    f.2,
    λ k lo hi. elim (Bool-cases (i == k)) [
      | inl e ↦ ground (arith, miss)
      | inr e ↦ f.3 k (ground arith) hi
    ],
  )

  -- Inside the items the search returns, with the first index that it looks for.
  pub index_between_lem :
      (n i : ℕ) (items : List A) (t : A)
      → i + n ≤ length items
      → (r : Option ℕ) × (index_between n i items t ≡ done r) × Finds n i items t r
  unfolding index_between
  index_between_lem zero i items t h = (none, refl, λ j lo hi. absurd (omega arith))
  index_between_lem (suc n) i items t h = elim (Bool-cases (x =? t)) [
    | inl hit ↦ (
      some i,
      rw (load_at_inside items i c.nil_value (omega arith), hit),
      (omega arith, omega arith, (c.beq_iff x t).0 hit, λ k lo hi. absurd (omega arith)),
    )
    | inr miss ↦
        let (r, e, f) = index_between_lem n (i + 1) items t (omega arith) in
        (
          r,
          rw (load_at_inside items i c.nil_value (omega arith), miss) e,
          Finds-later n i items t r (beq-ne x t miss) f,
        )
  ]
    where
      x : A
      x = get_or items i c.nil_value

  -- A search of one range and then of another.
  abbrev pub FindsEither : ℕ → ℕ → ℕ → ℕ → List A → A → Option ℕ → Type 0
  FindsEither n i m j items t none = Finds n i items t none × Finds m j items t none
  FindsEither n i m j items t (some k) =
      Finds n i items t (some k) ⊎ (Finds n i items t none × Finds m j items t (some k))

  second_search :
      (n i m j : ℕ) (items : List A) (t : A) (r : Option ℕ)
      → Finds n i items t none
      → Finds m j items t r
      → FindsEither n i m j items t r
  second_search n i m j items t none f g = (f, g)
  second_search n i m j items t (some k) f g = inr (f, g)

  pub or_search_lem :
      (n i m j : ℕ) (items : List A) (t : A)
      → i + n ≤ length items
      → j + m ≤ length items
      → (r : Option ℕ) × (or_search (index_between n i items t) (index_between m j items t)
          ≡ done r)
        × FindsEither n i m j items t r
  or_search_lem n i m j items t h k = pick (index_between_lem n i items t h)
    where
      pick :
          (r : Option ℕ) × (index_between n i items t ≡ done r) × Finds n i items t r
          → (r : Option ℕ) × (or_search (index_between n i items t) (index_between m j items t)
              ≡ done r)
            × FindsEither n i m j items t r
      pick (some l, e, f) = (some l, rw e, inl f)
      pick (none, e, f) =
          let (r, e', g) = index_between_lem m j items t k in
          (r, rw e e', second_search n i m j items t r f g)

module _ {A : Type 0} (d : A) where
  -- The items after `n` of them, from index `j` on, have moved one place to the front.
  abbrev pub Shifted : ℕ → ℕ → List A → List A → Type 0
  Shifted n j items items' =
      (length items' ≡ length items)
      × ((k : ℕ)
          → get_or items' k d ≡ (
              if leb j (k + 1) && ltb (k + 1) (j + n)
              then get_or items (k + 1) d
              else get_or items k d))

  pub shift_lem :
      (n j : ℕ) (items : List A)
      → 0 < j
      → j + n ≤ length items
      → (items' : List A) × (shift n j items ≡ done items') × Shifted n j items items'
  unfolding shift
  shift_lem zero j items p h = (items, refl, (refl, λ k. ground arith))
  shift_lem (suc n) j items p h =
      let x = get_or items j d in
      let moved = set items (j - 1) x in
      let len = length-set items (j - 1) x in
      let (items', e, f) = shift_lem n (j + 1) moved (omega arith) (omega arith) in
      (
        items',
        rw (load_at_inside items j d (omega arith), store_at_inside items (j - 1) x (omega arith))
            e,
        (
          f.0 ∙ len,
          λ k. ground (
            arith,
            f.1 k,
            get_or-set items (j - 1) k x d,
            get_or-set items (j - 1) (k + 1) x d,
            ap (λ m. get_or items m d) (pred-suc j p),
          ),
        ),
      )
    where
      pred-suc : (j : ℕ) → 0 < j → j ≡ j - 1 + 1
      pred-suc j p = omega arith

  -- Away from index 0 the two loops are one.
  pub shift_front-eq-shift :
      (n capacity j : ℕ) (items : List A) → 0 < j → shift_front n capacity j items ≡ shift n j items
  unfolding shift shift_front
  shift_front-eq-shift zero capacity j items p = refl
  shift_front-eq-shift (suc n) capacity j items p =
      let target : (if j == 0 then capacity - 1 else j - 1) ≡ j - 1 = ground arith in
      ap₂ {C = Panics (List A)} (λ w rest. load_at items j >>= λ x. store_at items w x >>= rest)
        target (fun_ext (λ items'. shift_front-eq-shift n capacity (j + 1) items' (omega arith)))

  -- At index 0 the first round writes the last index.
  pub shift_front_from_zero :
      (n capacity : ℕ) (items : List A)
      → 0 < capacity
      → capacity ≤ length items
      → shift_front (suc n) capacity 0 items
        ≡ shift n 1 (set items (capacity - 1) (get_or items 0 d))
  unfolding shift_front
  shift_front_from_zero n capacity items p h =
      rw
        (
          load_at_inside items 0 d (omega arith),
          store_at_inside items (capacity - 1) (get_or items 0 d) (omega arith),
        )
        (shift_front-eq-shift n capacity 1 (set items (capacity - 1) (get_or items 0 d))
          (omega arith))
