-- ===== src/Queue/Get.antt =====
-- `get` on a consistent queue is the removal of the oldest item.
use ww_webcrawler.Prelude.{
  ℕ, suc, ◌<◌, ◌≡◌, sym, ap, ap₂, inl, inr, ◌∙◌, false, List, ◌∷◌, Comparable, done, Result, ok,
  err, ◌==◌, if◌then◌else◌, Bool-cases, length, get_or, tabulate-ext, load_at_inside, arith,
}
use ww_webcrawler.Queue.{UniqueQueue, QueueError, queue_empty, next_index, dec_size, get}
use ww_webcrawler.Queue.View.{span, count, IsValid, window, contents, length-contents}
use ww_webcrawler.Queue.Fifo

-- The size that `dec_size` computes.
abbrev pub gap : ℕ → ℕ → ℕ → ℕ
gap capacity head tail = if head == tail then 0 else span capacity head tail

module _ {A : Type 0} where
  pub dec_size_lem :
      (u : UniqueQueue A) → dec_size u ≡ record u { size = gap u.capacity u.head u.tail }
  unfolding dec_size
  dec_size_lem u = ground arith

  -- After `dec_size` the size is exact.
  pub dec_size-IsValid :
      (u : UniqueQueue A)
      → length u.items ≡ u.capacity
      → u.head < u.capacity
      → u.tail < u.capacity
      → let v = record u { size = gap u.capacity u.head u.tail } in IsValid v × (v.size ≡ count v)
  dec_size-IsValid u l h t = ground arith

module _ {A : Type 0} ⦃c : Comparable A⦄ where
  -- The oldest item of a window and the rest.
  window-cons :
      (capacity head : ℕ) (items : List A) (n : ℕ)
      → head < capacity
      → n < capacity
      → window capacity head items (suc n)
        ≡ get_or items (next_index capacity head) c.nil_value
          ∷ window capacity (next_index capacity head) items n
  window-cons capacity head items n h hn =
      ap₂ ◌∷◌ (ap (λ m. get_or items m c.nil_value) (ground arith))
        (tabulate-ext n _ _ (λ k lt. ap (λ m. get_or items m c.nil_value) (ground arith)))

  -- What `get` returns, and the queue that it leaves.
  get_empty : (u : UniqueQueue A) → u.size ≡ 0 → get u ≡ done (err queue_empty, u)
  unfolding get
  get_empty u e = ground arith

  abbrev pub after_get : UniqueQueue A → UniqueQueue A
  after_get u =
      let head = next_index u.capacity u.head in
      record u { head = head; size = gap u.capacity head u.tail }

  get_nonempty :
      (u : UniqueQueue A)
      → IsValid u
      → (u.size == 0) ≡ false
      → get u ≡ done (ok (get_or u.items (next_index u.capacity u.head) c.nil_value), after_get u)
  unfolding get
  get_nonempty u v e = rw (
    e,
    load_at_inside u.items (next_index u.capacity u.head) c.nil_value (ground arith),
    dec_size_lem,
  )

  contents-after_get :
      (u : UniqueQueue A)
      → IsValid u
      → (u.size == 0) ≡ false
      → contents u
        ≡ get_or u.items (next_index u.capacity u.head) c.nil_value ∷ contents (after_get u)
  contents-after_get u v e =
      ap (window u.capacity u.head u.items) one_more
      ∙ window-cons u.capacity u.head u.items (count (after_get u)) v.head_in (ground arith)
    where
      one_more : count u ≡ suc (count (after_get u))
      one_more = ground arith

  -- `get` never panics on a valid queue. It answers as the list of the contents does: the oldest
  -- item, which it takes out, or the error of the empty queue. It leaves a valid queue whose size
  -- is exact.
  pub get_refines :
      (u : UniqueQueue A)
      → IsValid u
      → (r : Result QueueError A) × (u' : UniqueQueue A) × (get u ≡ done (r, u'))
        × ((r, contents u') ≡ Fifo.pop (contents u))
        × IsValid u'
        × (u'.size ≡ length (contents u'))
  get_refines u v = elim (Bool-cases (u.size == 0)) [
    | inl e ↦
        let zero_size : u.size ≡ 0 = ground arith in
        (err queue_empty, u, get_empty u zero_size, rw e, v, rw e zero_size)
    | inr e ↦
        let (valid, exact) =
          dec_size-IsValid (after_get u) v.items_length (ground arith) v.tail_in in
        (
          ok (get_or u.items (next_index u.capacity u.head) c.nil_value),
          after_get u,
          get_nonempty u v e,
          rw (contents-after_get u v e),
          valid,
          exact ∙ sym (length-contents (after_get u)),
        )
  ]
