-- ===== src/Queue/Remove.antt =====
-- `remove` on a consistent queue: what is taken out, by where the item is found.
pub mod Window
pub mod Search
pub mod Cases
use ww_webcrawler.Prelude.{
  ℕ, zero, suc, ◌+◌, ◌-◌, ◌<◌, ◌≤◌, ◌≡◌, ◌≢◌, refl, sym, ap, subst, inl, inr, ◌⊎◌, ◌∙◌, true, false,
  Option, none, some, List, [], ◌∷◌, Comparable, done, ltb, leb, ◌==◌, if◌then◌else◌, Bool-cases,
  length, get_or, get_elem?, arith,
}
use ww_webcrawler.Queue.{UniqueQueue, prev_index, index_of, close_gap, step_back, remove}
use ww_webcrawler.Queue.View.{wrap, count, IsValid, contents}
use ww_webcrawler.Queue.Fifo.{erase_at, get_elem?-tabulate}
use ww_webcrawler.Queue.Get.{dec_size_lem, dec_size-IsValid}
use ww_webcrawler.Queue.Gap.{
  Closed, close_gap_plain, close_gap_back, close_gap_front, close_gap_zero,
}
use Window.{place, lost, drop_tail, drop_both, contents-drop_tail, contents-drop_both}
use Search.{IsSearched, IndexSearch, index_of_lem}

module _ {A : Type 0} where
  pub step_back_inner :
      (u : UniqueQueue A) (i : ℕ) (items : List A)
      → (i == u.head) ≡ false
      → step_back u i items ≡ drop_tail u items
  unfolding step_back
  step_back_inner u i items e = rw e (dec_size_lem (drop_tail u items))

  pub step_back_head :
      (u : UniqueQueue A) (i : ℕ) (items : List A)
      → (i == u.head) ≡ true
      → step_back u i items ≡ drop_both u items
  unfolding step_back
  step_back_head u i items e = rw e (dec_size_lem (drop_both u items))

  -- Wherever the item was found, the indices stay in range and the size becomes exact.
  step_back-IsValid :
      (u : UniqueQueue A) (i : ℕ) (items : List A)
      → IsValid u
      → length items ≡ u.capacity
      → IsValid (step_back u i items) × ((step_back u i items).size ≡ count (step_back u i items))
  step_back-IsValid u i items v l = elim (Bool-cases (i == u.head)) [
    | inl e ↦
        rw (step_back_head u i items e)
          (dec_size-IsValid (drop_both u items) l (ground arith) (ground arith))
    | inr e ↦
        rw (step_back_inner u i items e)
          (dec_size-IsValid (drop_tail u items) l v.head_in (ground arith))
  ]

  close_gap_searched :
      (d : A) (u : UniqueQueue A) (i : ℕ)
      → IsValid u
      → IsSearched u i
      → (items' : List A) × (close_gap u i ≡ done items') × (length items' ≡ u.capacity)
  close_gap_searched d u i v (inside, inl (plain, back, front)) =
      let (items', e, f) = close_gap_plain d u i v plain front in
      (items', e, f.same_length ∙ v.items_length)
  close_gap_searched d u i v (inside, inr (round, inl back)) =
      let (items', e, l, f) = close_gap_back d u i v round back inside in (items', e, l)
  close_gap_searched d u zero v (inside, inr (round, inr front)) =
      let (items', e, l, f) = close_gap_zero d u v round front in (items', e, l)
  close_gap_searched d u (suc i) v (inside, inr (round, inr front)) =
      let (items', e, f) = close_gap_front d u (suc i) v round front (omega arith) in
      (items', e, f.same_length ∙ v.items_length)

module _ {A : Type 0} ⦃c : Comparable A⦄ where
  pub remove_found :
      (u : UniqueQueue A) (t : A) (i : ℕ) (items : List A)
      → index_of u t ≡ done (some i)
      → close_gap u i ≡ done items
      → remove u t ≡ done (step_back u i items)
  unfolding remove
  remove_found u t i items e f = rw (e, f)

  pub remove_missing : (u : UniqueQueue A) (t : A) → index_of u t ≡ done none → remove u t ≡ done u
  unfolding remove
  remove_missing u t e = rw e

  -- An index that the search returns holds the item.
  pub index_of_found :
      (u : UniqueQueue A) (t : A) (i : ℕ)
      → IsValid u
      → index_of u t ≡ done (some i)
      → IndexSearch u t (some i)
  index_of_found u t i v e =
      let (r, e', f) = index_of_lem u t v in
      let same : r ≡ some i = cc in subst (IndexSearch u t) same f

  -- `remove` never panics on a valid queue, and leaves a valid one.
  pub remove_total :
      (u : UniqueQueue A) (t : A)
      → IsValid u
      → (u' : UniqueQueue A) × (remove u t ≡ done u') × IsValid u'
  remove_total u t v = go (index_of_lem u t v)
    where
      go :
          (r : Option ℕ) × (index_of u t ≡ done r) × IndexSearch u t r
          → (u' : UniqueQueue A) × (remove u t ≡ done u') × IsValid u'
      go (none, e, f) = (u, remove_missing u t e, v)
      go (some i, e, f) =
          let (items, g, l) = close_gap_searched c.nil_value u i v f.1 in
          (step_back u i items, remove_found u t i items e g, (step_back-IsValid u i items v l).0)
