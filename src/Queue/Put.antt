-- ===== src/Queue/Put.antt =====
-- `put` on a consistent queue: what it accepts, what it refuses, and what the queue holds then.
pub mod Corners
use ww_webcrawler.Prelude.{
  ℕ, suc, ◌+◌, ◌-◌, ◌<◌, ◌≤◌, ◌≡◌, ◌≢◌, refl, sym, ap, ap₂, inl, inr, ◌⊎◌, ◌∙◌, true, false, Option,
  none, some, List, [], ◌∷◌, ◌++◌, Comparable, done, ltb, leb, ◌==◌, if◌then◌else◌, Bool-cases,
  length, get_or, set, length-set, get_or-set_self, get_or-set_ne, tabulate-ext, tabulate-suc,
  append_assoc, store_at_inside, arith,
}
use ww_webcrawler.Queue.{
  UniqueQueue, QueueError, queue_full, queue_empty, queue_duplicate, next_index, inc_size,
  find_duplicate, put, index_between,
}
use ww_webcrawler.Queue.View.{wrap, span, count, IsValid, window, contents, length-contents}
use ww_webcrawler.Queue.Loops.{index_between_lem, or_search_lem, Finds, FindsEither}

-- The size that `inc_size` computes.
abbrev pub filled : ℕ → ℕ → ℕ → ℕ
filled capacity head tail =
    if head == tail
    then capacity
    else if leb head tail
    then tail - head
    else capacity + tail - head + 1

module _ {A : Type 0} where
  pub inc_size_lem :
      (u : UniqueQueue A) → inc_size u ≡ record u { size = filled u.capacity u.head u.tail }
  unfolding inc_size
  inc_size_lem u = ground arith

  abbrev pub after_put : UniqueQueue A → A → UniqueQueue A
  after_put u t =
      let tail = next_index u.capacity u.tail in
      record u { tail = tail; items = set u.items tail t; size = filled u.capacity u.head tail }

  -- The indices that the check for duplicates looks at.
  abbrev pub IsChecked : UniqueQueue A → ℕ → Type 0
  IsChecked u j = (j < u.capacity) × ((u.tail < u.head) ⊎ ((u.head ≤ j) × (j < u.tail)))

  pub count-after_put :
      (u : UniqueQueue A) (t : A)
      → IsValid u
      → u.size < u.capacity
      → count (after_put u t) ≡ suc (count u)
  count-after_put u t v h = ground arith

  pub after_put-IsValid :
      (u : UniqueQueue A) (t : A) → IsValid u → u.size < u.capacity → IsValid (after_put u t)
  after_put-IsValid u t v h = ground (arith, length-set u.items (next_index u.capacity u.tail) t)

module _ {A : Type 0} ⦃c : Comparable A⦄ where
  abbrev pub item : UniqueQueue A → ℕ → A
  item u j = get_or u.items j c.nil_value

  abbrev pub DuplicateSearch : UniqueQueue A → A → Option ℕ → Type 0
  DuplicateSearch u t none = (j : ℕ) → IsChecked u j → item u j ≢ t
  DuplicateSearch u t (some i) = IsChecked u i × (item u i ≡ t)

  pub contents-after_put :
      (u : UniqueQueue A) (t : A)
      → IsValid u
      → u.size < u.capacity
      → contents (after_put u t) ≡ contents u ++ t ∷ []
  contents-after_put u t v h =
      ap (window u.capacity u.head (set u.items w t)) (count-after_put u t v h)
      ∙ tabulate-suc (count u) _
      ∙ ap₂ (λ xs x. xs ++ x ∷ [])
          (tabulate-ext (count u) _ _
            (λ k lt. get_or-set_ne u.items w _ t c.nil_value (ground arith)))
          (ap (λ j. get_or (set u.items w t) j c.nil_value) last_slot
            ∙ get_or-set_self u.items w t c.nil_value (ground arith))
    where
      w : ℕ
      w = next_index u.capacity u.tail

      last_slot : wrap u.capacity (u.head + 1 + count u) ≡ w
      last_slot = ground arith

  plain_search :
      (u : UniqueQueue A) (t : A) (r : Option ℕ)
      → u.head ≤ u.tail
      → u.tail < u.capacity
      → Finds (u.tail - u.head) u.head u.items t r
      → DuplicateSearch u t r
  plain_search u t none h l f = λ j checked. f j (omega arith) (omega arith)
  plain_search u t (some i) h l f = ((omega arith, inr (f.0, omega arith)), f.2)

  wrapped_search :
      (u : UniqueQueue A) (t : A) (r : Option ℕ)
      → u.tail < u.head
      → u.head < u.capacity
      → FindsEither (u.capacity - u.tail) u.tail u.head 0 u.items t r
      → DuplicateSearch u t r
  wrapped_search u t none h l (f, g) = λ j checked. elim (Bool-cases (ltb j u.tail)) [
    | inl before ↦ g j (omega arith) (ground arith)
    | inr behind ↦ f j (ground arith) (omega arith)
  ]
  wrapped_search u t (some i) h l (inl f) = ((omega arith, inl h), f.2)
  wrapped_search u t (some i) h l (inr (f, g)) = ((omega arith, inl h), g.2)

  -- The check for duplicates returns, and finds the item exactly if it stands at a checked index.
  pub find_duplicate_lem :
      (u : UniqueQueue A) (t : A)
      → IsValid u
      → (r : Option ℕ) × (find_duplicate u t ≡ done r) × DuplicateSearch u t r
  unfolding find_duplicate
  find_duplicate_lem u t v = elim (Bool-cases (leb u.head u.tail)) [
    | inl e ↦
        let (r, found, f) = index_between_lem (u.tail - u.head) u.head u.items t (ground arith) in
        (r, rw e found, plain_search u t r (ground arith) v.tail_in f)
    | inr e ↦
        let (r, found, f) =
          or_search_lem (u.capacity - u.tail) u.tail u.head 0 u.items t
            (omega (arith, v.items_length, v.tail_in)) (omega (arith, v.items_length, v.head_in)) in
        (r, rw e found, wrapped_search u t r (ground arith) v.head_in f)
  ]

  -- What `put` does, by the error that it returns.
  abbrev pub PutOutcome : UniqueQueue A → A → UniqueQueue A → Option QueueError → Type 0
  PutOutcome u t u' none =
      (contents u' ≡ contents u ++ t ∷ []) × IsValid u' × DuplicateSearch u t none
  PutOutcome u t u' (some queue_full) = (u' ≡ u) × (u.capacity ≤ count u + 1)
  PutOutcome u t u' (some queue_duplicate) = (u' ≡ u) × ((i : ℕ) × DuplicateSearch u t (some i))
  PutOutcome u t u' (some queue_empty) = ⊥

  pub put_accepted :
      (u : UniqueQueue A) (t : A)
      → IsValid u
      → u.size < u.capacity
      → find_duplicate u t ≡ done none
      → put u t ≡ done (none, after_put u t)
  unfolding put
  put_accepted u t v room e =
      let open_slot : leb u.capacity u.size ≡ false = ground arith in
      rw (
        open_slot,
        e,
        store_at_inside u.items (next_index u.capacity u.tail) t (ground arith),
        inc_size_lem,
      )

  pub put_full :
      (u : UniqueQueue A) (t : A) → u.capacity ≤ u.size → put u t ≡ done (some queue_full, u)
  unfolding put
  put_full u t h = rw full
    where
      full : leb u.capacity u.size ≡ true
      full = ground arith

  pub put_duplicate :
      (u : UniqueQueue A) (t : A) (i : ℕ)
      → u.size < u.capacity
      → find_duplicate u t ≡ done (some i)
      → put u t ≡ done (some queue_duplicate, u)
  unfolding put
  put_duplicate u t i h e = rw (room, e)
    where
      room : leb u.capacity u.size ≡ false
      room = ground arith

  put_unless_full :
      (u : UniqueQueue A) (t : A) (r : Option ℕ)
      → IsValid u
      → (leb u.capacity u.size) ≡ false
      → find_duplicate u t ≡ done r
      → DuplicateSearch u t r
      → (e : Option QueueError) × (u' : UniqueQueue A) × (put u t ≡ done (e, u'))
        × PutOutcome u t u' e
  put_unless_full u t none v h e f = (
    none,
    after_put u t,
    put_accepted u t v (ground arith) e,
    (contents-after_put u t v (ground arith), after_put-IsValid u t v (ground arith), f),
  )
  put_unless_full u t (some i) v h e f =
      (some queue_duplicate, u, put_duplicate u t i (ground arith) e, (refl, (i, f)))

  -- `put` never panics on a valid queue. Without an error the queue is valid, and the item stands
  -- behind its contents and at none of the indices that were compared. An error leaves the queue as
  -- it is: it is full or one item short of full, or an index that was compared holds the item.
  pub put_refines :
      (u : UniqueQueue A) (t : A)
      → IsValid u
      → (e : Option QueueError) × (u' : UniqueQueue A) × (put u t ≡ done (e, u'))
        × PutOutcome u t u' e
  put_refines u t v = elim (Bool-cases (leb u.capacity u.size)) [
    | inl full ↦ (some queue_full, u, put_full u t (ground arith), (refl, ground arith))
    | inr room ↦ let (r, e, f) = find_duplicate_lem u t v in put_unless_full u t r v room e f
  ]
