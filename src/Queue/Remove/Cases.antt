-- ===== src/Queue/Remove/Cases.antt =====
-- The cases of `remove`, by the index at which it finds the item.
use ww_webcrawler.Prelude.{
  ℕ, zero, suc, ◌+◌, ◌-◌, ◌<◌, ◌≤◌, ◌≡◌, ◌≢◌, ap, inl, inr, ◌⊎◌, ◌∙◌, false, Option, none, some,
  List, [], Comparable, done, ltb, ◌==◌, Bool-cases, length, get_or, get_elem?, arith,
}
use ww_webcrawler.Queue.{UniqueQueue, prev_index, index_of, close_gap, remove}
use ww_webcrawler.Queue.View.{count, IsValid, window, contents, length-contents}
use ww_webcrawler.Queue.Fifo.{erase_at, get_elem?-tabulate}
use ww_webcrawler.Queue.Gap.{
  Closed, close_gap_plain, close_gap_back, close_gap_front, close_gap_zero,
}
use ww_webcrawler.Queue.Remove.Window.{
  place, lost, drop_tail, drop_both, contents-drop_tail, contents-drop_both,
}
use ww_webcrawler.Queue.Remove.Search.{IsSearched, IndexSearch, index_of_lem}
use ww_webcrawler.Queue.Remove.{
  remove_found, remove_missing, index_of_found, step_back_inner, step_back_head,
}

module _ {A : Type 0} ⦃c : Comparable A⦄ where
  -- An index of the queue's live range is a place of the contents.
  get_elem?-place :
      (u : UniqueQueue A) (i : ℕ)
      → IsValid u
      → i < u.capacity
      → place u i < count u
      → i ≢ u.head ⊎ u.head ≡ u.tail
      → get_elem? (contents u) (place u i) ≡ some (get_or u.items i c.nil_value)
  get_elem?-place u i v inside h live =
      get_elem?-tabulate (place u i) (count u) _ h
      ∙ ap (λ j. some (get_or u.items j c.nil_value)) (ground arith)

  gap_behind :
      (u : UniqueQueue A) (i : ℕ)
      → IsValid u
      → IsSearched u i
      → u.head < i
      → (items' : List A) × (close_gap u i ≡ done items') × Closed c.nil_value u i items'
  gap_behind u i v (inside, inl (plain, back, front)) h =
      close_gap_plain c.nil_value u i v plain front
  gap_behind u i v (inside, inr (round, searched)) h =
      let (items', e, l, f) = close_gap_back c.nil_value u i v round (omega arith) inside in
      (items', e, f (omega arith))

  -- In a valid queue, an item that `index_of` finds behind the index of the last read is taken out
  -- of the contents by `remove`, and nothing else is.
  pub remove_behind_head :
      (u : UniqueQueue A) (t : A) (i : ℕ)
      → IsValid u
      → index_of u t ≡ done (some i)
      → u.head < i
      → (u' : UniqueQueue A) × (remove u t ≡ done u')
        × (get_elem? (contents u) (i - u.head - 1) ≡ some t)
        × (contents u' ≡ erase_at (i - u.head - 1) (contents u))
  remove_behind_head u t i v e h =
      let (nonempty, searched, hit) = index_of_found u t i v e in
      let (items', g, f) = gap_behind u i v searched h in
      let at : place u i ≡ i - u.head - 1 = ground arith in
      let loses : lost u i ≡ i - u.head - 1 = ground arith in
      (
        drop_tail u items',
        remove_found u t i items' e g ∙ ap done (step_back_inner u i items' (ground arith)),
        rw (← at)
            (get_elem?-place u i v searched.0 (ground arith) (inl (omega arith)) ∙ ap some hit),
        rw (← loses)
            (contents-drop_tail u i items' v f searched.0 (omega arith) nonempty (ground arith)),
      )

  gap_front :
      (u : UniqueQueue A) (i : ℕ)
      → IsValid u
      → u.tail ≤ u.head
      → i < u.tail
      → (0 < i) ⊎ (u.tail + 1 < u.capacity)
      → (items' : List A) × (close_gap u i ≡ done items')
        × Closed c.nil_value u (prev_index u.capacity i) items'
  gap_front u zero v round front safe =
      let (items', e, l, f) = close_gap_zero c.nil_value u v round front in
      (items', e, f (omega arith))
  gap_front u (suc i) v round front safe =
      let (items', e, f) = close_gap_front c.nil_value u (suc i) v round front (omega arith) in
      let same : prev_index u.capacity (suc i) ≡ suc i - 1 = ground arith in (items', e, rw same f)

  -- In a valid queue that goes round, `index_of` finds the item before the index of the last write,
  -- and not at index 0 where the last write is in the last place. Then `remove` loses the item
  -- before it, and it stays; the oldest item itself is taken out.
  pub remove_front :
      (u : UniqueQueue A) (t : A) (i : ℕ)
      → IsValid u
      → index_of u t ≡ done (some i)
      → u.tail ≤ u.head
      → i < u.tail
      → (0 < i) ⊎ (u.tail + 1 < u.capacity)
      → let p = u.capacity + i - u.head - 1 in
        (u' : UniqueQueue A) × (remove u t ≡ done u')
        × (get_elem? (contents u) p ≡ some t)
        × (contents u' ≡ erase_at (p - 1) (contents u))
  remove_front u t i v e round front safe =
      let (nonempty, searched, hit) = index_of_found u t i v e in
      let (items', g, f) = gap_front u i v round front safe in
      let at : place u i ≡ u.capacity + i - u.head - 1 = ground arith in
      let start = prev_index u.capacity i in
      let loses : lost u start ≡ u.capacity + i - u.head - 1 - 1 = ground arith in
      (
        drop_tail u items',
        remove_found u t i items' e g ∙ ap done (step_back_inner u i items' (ground arith)),
        rw (← at)
            (get_elem?-place u i v searched.0 (ground arith) (inl (omega arith)) ∙ ap some hit),
        rw (← loses) (
            contents-drop_tail u start items' v f (ground arith) (ground arith) nonempty
              (ground arith)),
      )

  gap_stale :
      (u : UniqueQueue A)
      → IsValid u
      → u.head ≢ u.tail
      → (items' : List A) × (close_gap u u.head ≡ done items') × Closed c.nil_value u u.head items'
  gap_stale u v apart = elim (Bool-cases (ltb u.head u.tail)) [
    | inl plain ↦ close_gap_plain c.nil_value u u.head v (ground arith) (ground arith)
    | inr round ↦
        let (items', e, l, f) =
          close_gap_back c.nil_value u u.head v (ground arith) (omega arith) v.head_in in
        (items', e, f (ground arith))
  ]

  -- In a valid queue whose indices differ, `index_of` finds the item at the index of the last read.
  -- Then `remove` keeps the contents.
  pub remove_stale :
      (u : UniqueQueue A) (t : A)
      → IsValid u
      → index_of u t ≡ done (some u.head)
      → u.head ≢ u.tail
      → (u' : UniqueQueue A) × (remove u t ≡ done u') × (contents u' ≡ contents u)
  remove_stale u t v e apart =
      let (nonempty, searched, hit) = index_of_found u t u.head v e in
      let (items', g, f) = gap_stale u v apart in
      (
        drop_both u items',
        remove_found u t u.head items' e g
            ∙ ap done (step_back_head u u.head items' (ground arith)),
        contents-drop_both u items' v f apart nonempty,
      )

  -- In a valid queue whose indices match, `index_of` finds the item at the index of the last read.
  -- Then the queue is full, and `remove` loses every item.
  pub remove_full_newest :
      (u : UniqueQueue A) (t : A)
      → IsValid u
      → index_of u t ≡ done (some u.head)
      → u.head ≡ u.tail
      → (u' : UniqueQueue A) × (remove u t ≡ done u')
        × (length (contents u) ≡ u.capacity)
        × (contents u' ≡ [])
  remove_full_newest u t v e full =
      let (nonempty, searched, hit) = index_of_found u t u.head v e in
      let (items', g, l, f) =
        close_gap_back c.nil_value u u.head v (omega arith) (omega arith) v.head_in in
      let no_items : count (drop_both u items') ≡ 0 = ground arith in
      (
        drop_both u items',
        remove_found u t u.head items' e g
            ∙ ap done (step_back_head u u.head items' (ground arith)),
        length-contents u ∙ ground arith,
        ap (window u.capacity (prev_index u.capacity u.head) items') no_items,
      )

  -- The newest item of a valid queue that does not go round stays when it is removed, if no index
  -- from the last read up to the last write holds that item too.
  pub remove_newest_missed :
      (u : UniqueQueue A)
      → IsValid u
      → u.head < u.tail
      → ((j : ℕ)
          → u.head ≤ j
          → j < u.tail
          → get_or u.items j c.nil_value ≢ get_or u.items u.tail c.nil_value)
      → let t = get_or u.items u.tail c.nil_value in
        (remove u t ≡ done u) × (get_elem? (contents u) (count u - 1) ≡ some t)
  remove_newest_missed u v plain fresh = (remove_missing u t missed, newest)
    where
      t : A
      t = get_or u.items u.tail c.nil_value

      not_found :
          (r : Option ℕ) → index_of u t ≡ done r → IndexSearch u t r → index_of u t ≡ done none
      not_found none e f = e
      not_found (some i) e (nonempty, searched, hit) =
          absurd (fresh i (omega arith) (omega arith) hit)

      missed : index_of u t ≡ done none
      missed = let (r, e, f) = index_of_lem u t v in not_found r e f

      some_items : (u.size == 0) ≡ false
      some_items = ground arith

      last_place : place u u.tail ≡ count u - 1
      last_place = ground arith

      newest : get_elem? (contents u) (count u - 1) ≡ some t
      newest =
          rw (← last_place)
            (get_elem?-place u u.tail v v.tail_in (ground arith) (inl (omega arith)))
