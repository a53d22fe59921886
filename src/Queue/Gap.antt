-- ===== src/Queue/Gap.antt =====
-- `close_gap`: the items from a start index up to the write index each take their successor's
-- place, round the end of the items. (The start is not always the removed item: see `Remove`.)
use ww_webcrawler.Prelude.{
  ℕ, ◌+◌, ◌-◌, ◌<◌, ◌≤◌, ◌≡◌, inl, inr, ◌∙◌, ◌&&◌, ◌||◌, Bool, List, done, ltb, leb, ◌==◌,
  if◌then◌else◌, Bool-cases, length, get_or, set, length-set, get_or-set, lt→ltb, arith,
}
use native.Mathlib.Numerals.{add-one}
use ww_webcrawler.Queue.{UniqueQueue, next_index, close_gap}
use ww_webcrawler.Queue.View.{IsValid}
use ww_webcrawler.Queue.Loops.{shift_lem, shift_front-eq-shift, shift_front_from_zero}

-- Whether index `j` lies from `start` on and before `tail`, going round.
abbrev pub in_gap : ℕ → ℕ → ℕ → Bool
in_gap start tail j =
    if ltb start tail then leb start j && ltb j tail else leb start j || ltb j tail

module _ {A : Type 0} (d : A) where
  pub record Closed (u : UniqueQueue A) (start : ℕ) (items' : List A) : Type 0 where
    pub same_length : length items' ≡ length u.items
    pub moved :
        (j : ℕ)
        → j < u.capacity
        → get_or items' j d ≡ (
            if in_gap start u.tail j
            then get_or u.items (next_index u.capacity j) d
            else get_or u.items j d)

  -- The queue does not go round.
  pub close_gap_plain :
      (u : UniqueQueue A) (i : ℕ)
      → IsValid u
      → u.head < u.tail
      → i < u.tail
      → (items' : List A) × (close_gap u i ≡ done items') × Closed u i items'
  unfolding close_gap
  close_gap_plain u i v plain inside =
      let (items', e, f) =
        shift_lem d (u.tail - i) (i + 1) u.items (omega arith)
          (omega (arith, v.items_length, v.tail_in)) in
      (
        items',
        rw (lt→ltb _ _ plain) e,
        record { same_length = f.0; moved = λ j lt. f.1 j ∙ ground arith },
      )

  -- The queue goes round and the item stands at the back end.
  pub close_gap_back :
      (u : UniqueQueue A) (i : ℕ)
      → IsValid u
      → u.tail ≤ u.head
      → u.head ≤ i
      → i < u.capacity
      → (items' : List A) × (close_gap u i ≡ done items')
        × (length items' ≡ u.capacity)
        × (u.tail < i → Closed u i items')
  unfolding close_gap
  close_gap_back u i v round back inside =
      let (items1, e1, f1) =
        shift_lem d (u.capacity - (i + 1)) (i + 1) u.items (omega arith)
          (omega (arith, v.items_length)) in
      let x = get_or items1 0 d in
      let front = set items1 (u.capacity - 1) x in
      let len = length-set items1 (u.capacity - 1) x in
      let (items2, e2, f2) =
        shift_lem d u.tail 1 front (omega arith)
          (omega (arith, v.items_length, v.tail_in, f1.0, len)) in
      let e3 =
        shift_front_from_zero d u.tail u.capacity items1 v.capacity_pos
          (omega (arith, v.items_length, f1.0)) in
      (
        items2,
        ground (arith, e1, e2, e3, add-one u.tail),
        f2.0 ∙ len ∙ f1.0 ∙ v.items_length,
        λ apart. record {
          same_length = f2.0 ∙ len ∙ f1.0;
          moved = λ j lt. f2.1 j ∙ elim (Bool-cases (ltb j u.tail)) [
            | inl low ↦ ground (arith, f1.1 (j + 1), get_or-set items1 (u.capacity - 1) (j + 1) x d)
            | inr high ↦ elim (Bool-cases (j == u.capacity - 1)) [
              | inl last ↦ ground (arith, f1.1 0, get_or-set items1 (u.capacity - 1) j x d)
              | inr inner ↦ ground (arith, f1.1 j, get_or-set items1 (u.capacity - 1) j x d)
            ]
          ];
        },
      )

  -- The queue goes round and the item stands at the front end, not at index 0.
  pub close_gap_front :
      (u : UniqueQueue A) (i : ℕ)
      → IsValid u
      → u.tail ≤ u.head
      → i < u.tail
      → 0 < i
      → (items' : List A) × (close_gap u i ≡ done items') × Closed u (i - 1) items'
  unfolding close_gap
  close_gap_front u i v round front p =
      let (items', e, f) =
        shift_lem d (u.tail + 1 - i) i u.items p (omega (arith, v.items_length, v.tail_in)) in
      (
        items',
        ground (arith, e, shift_front-eq-shift d (u.tail + 1 - i) u.capacity i u.items p),
        record { same_length = f.0; moved = λ j lt. f.1 j ∙ ground arith },
      )

  -- The item stands at index 0: its successor's place is the last index.
  pub close_gap_zero :
      (u : UniqueQueue A)
      → IsValid u
      → u.tail ≤ u.head
      → 0 < u.tail
      → (items' : List A) × (close_gap u 0 ≡ done items')
        × (length items' ≡ u.capacity)
        × (u.tail + 1 < u.capacity → Closed u (u.capacity - 1) items')
  unfolding close_gap
  close_gap_zero u v round p =
      let x = get_or u.items 0 d in
      let front = set u.items (u.capacity - 1) x in
      let len = length-set u.items (u.capacity - 1) x in
      let (items', e, f) =
        shift_lem d u.tail 1 front (omega arith) (omega (arith, v.items_length, v.tail_in, len)) in
      let e' =
        shift_front_from_zero d u.tail u.capacity u.items v.capacity_pos
          (omega (arith, v.items_length)) in
      (
        items',
        ground (arith, e, e', add-one u.tail),
        f.0 ∙ len ∙ v.items_length,
        λ apart. record {
          same_length = f.0 ∙ len;
          moved = λ j lt.
              f.1 j
              ∙ ground (
                arith,
                get_or-set u.items (u.capacity - 1) j x d,
                get_or-set u.items (u.capacity - 1) (j + 1) x d,
              );
        },
      )
