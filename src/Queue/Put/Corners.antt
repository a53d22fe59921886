-- ===== src/Queue/Put/Corners.antt =====
-- `put` in particular states: an empty queue, the newest item again, and the last free slots.
use ww_webcrawler.Prelude.{
  ℕ, suc, ◌+◌, ◌-◌, ◌<◌, ◌≤◌, ◌≡◌, ◌≢◌, refl, ap, inl, inr, ◌∙◌, Option, none, some, List, [], ◌∷◌,
  ◌++◌, Comparable, done, leb, Bool-cases, length, tabulate-suc, append_assoc, arith,
}
use ww_webcrawler.Queue.{UniqueQueue, queue_full, queue_duplicate, find_duplicate, put}
use ww_webcrawler.Queue.View.{count, IsValid, window, contents, length-contents}
use ww_webcrawler.Queue.Put.{
  after_put, item, DuplicateSearch, find_duplicate_lem, contents-after_put, after_put-IsValid,
  put_accepted, put_full, put_duplicate,
}

module _ {A : Type 0} ⦃c : Comparable A⦄ where
  -- A valid queue that does not go round and is not full accepts its newest item again, if no index
  -- from the last read up to the last write holds that item too.
  pub put_newest_again :
      (u : UniqueQueue A)
      → IsValid u
      → u.head < u.tail
      → u.size < u.capacity
      → ((j : ℕ) → u.head ≤ j → j < u.tail → item u j ≢ item u u.tail)
      → let t = item u u.tail in
        (u' : UniqueQueue A) × (older : List A) × (put u t ≡ done (none, u'))
        × (contents u' ≡ older ++ t ∷ t ∷ [])
  put_newest_again u v plain room fresh =
      let (r, e, f) = find_duplicate_lem u t v in
      (
        after_put u t,
        older,
        put_accepted u t v room (not_found r e f),
        contents-after_put u t v room
            ∙ ap (λ xs. xs ++ t ∷ []) older_and_newest
            ∙ append_assoc older (t ∷ []) (t ∷ []),
      )
    where
      t : A
      t = item u u.tail

      older : List A
      older = window u.capacity u.head u.items (u.tail - u.head - 1)

      not_found :
          (r : Option ℕ)
          → find_duplicate u t ≡ done r
          → DuplicateSearch u t r
          → find_duplicate u t ≡ done none
      not_found none e f = e
      not_found (some i) e (checked, hit) = absurd (fresh i (omega arith) (omega arith) hit)

      older_and_newest : contents u ≡ older ++ t ∷ []
      older_and_newest =
          let one_more : count u ≡ suc (u.tail - u.head - 1) = ground arith in
          ap (window u.capacity u.head u.items) one_more
          ∙ tabulate-suc (u.tail - u.head - 1) _
          ∙ ap (λ j. older ++ item u j ∷ []) (ground arith)

  -- A valid queue that is empty accepts any item, and then holds it alone and is valid.
  pub put_empty :
      (u : UniqueQueue A) (t : A)
      → IsValid u
      → u.size ≡ 0
      → (put u t ≡ done (none, after_put u t))
        × (contents (after_put u t) ≡ t ∷ [])
        × IsValid (after_put u t)
  put_empty u t v e =
      let (r, f, g) = find_duplicate_lem u t v in
      (
        put_accepted u t v room (not_found r f g),
        contents-after_put u t v room
            ∙ ap (λ n. window u.capacity u.head u.items n ++ t ∷ []) nothing,
        after_put-IsValid u t v room,
      )
    where
      room : u.size < u.capacity
      room = omega (arith, v.capacity_pos)

      nothing : count u ≡ 0
      nothing = ground arith

      not_found :
          (r : Option ℕ)
          → find_duplicate u t ≡ done r
          → DuplicateSearch u t r
          → find_duplicate u t ≡ done none
      not_found none f g = f
      not_found (some i) f (checked, hit) = absurd (omega (arith, v.empty_indices e))

  -- What an accepting `put` leaves.
  pub put_inversion :
      (u : UniqueQueue A) (t : A) (u' : UniqueQueue A)
      → IsValid u
      → put u t ≡ done (none, u')
      → (u.size < u.capacity) × (u' ≡ after_put u t)
  put_inversion u t u' v p = elim (Bool-cases (leb u.capacity u.size)) [
    | inl full ↦ cc (put_full u t (ground arith))
    | inr room ↦ go (find_duplicate_lem u t v) (ground arith)
  ]
    where
      go :
          (r : Option ℕ) × (find_duplicate u t ≡ done r) × DuplicateSearch u t r
          → u.size < u.capacity
          → (u.size < u.capacity) × (u' ≡ after_put u t)
      go (none, e, f) room = (room, cc (put_accepted u t v room e))
      go (some i, e, f) room = cc (put_duplicate u t i room e)

  -- A valid queue that goes round with two free slots counts as full after one more item is
  -- accepted, with one slot free.
  pub put_full_early :
      (u : UniqueQueue A) (t s : A) (u' : UniqueQueue A)
      → IsValid u
      → u.tail + 2 ≡ u.head
      → put u t ≡ done (none, u')
      → (put u' s ≡ done (some queue_full, u')) × (length (contents u') + 1 ≡ u'.capacity)
  put_full_early u t s u' v e p =
      let (room, same) = put_inversion u t u' v p in
      rw same (
        put_full (after_put u t) s (ground arith),
        ap (λ n. n + 1) (length-contents (after_put u t)) ∙ last_slot,
      )
    where
      last_slot : count (after_put u t) + 1 ≡ u.capacity
      last_slot = ground arith

  -- A valid queue that goes round and is not full refuses whatever any of its places holds, also an
  -- item that has been taken out.
  pub put_stale_refused :
      (u : UniqueQueue A) (j : ℕ)
      → IsValid u
      → u.tail < u.head
      → u.size < u.capacity
      → j < u.capacity
      → put u (item u j) ≡ done (some queue_duplicate, u)
  put_stale_refused u j v round room inside = go (find_duplicate_lem u (item u j) v)
    where
      go :
          (r : Option ℕ) × (find_duplicate u (item u j) ≡ done r) × DuplicateSearch u (item u j) r
          → put u (item u j) ≡ done (some queue_duplicate, u)
      go (none, e, f) = absurd (f j (inside, inl round) refl)
      go (some i, e, f) = put_duplicate u (item u j) i room e
