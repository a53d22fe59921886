-- ===== src/Queue/Remove/Window.antt =====
-- `remove` on a consistent queue: where the item is looked for, and what is taken out.
use ww_webcrawler.Prelude.{
  ℕ, suc, ◌+◌, ◌-◌, ◌<◌, ◌≡◌, ◌≢◌, sym, ap, inl, inr, ◌∙◌, true, false, List, Comparable, ltb, ◌==◌,
  if◌then◌else◌, Bool-cases, get_or, tabulate-ext, arith,
}
use ww_webcrawler.Queue.{UniqueQueue, next_index, prev_index}
use ww_webcrawler.Queue.View.{wrap, count, IsValid, window, contents}
use ww_webcrawler.Queue.Fifo.{erase_at, erase_at-tabulate}
use ww_webcrawler.Queue.Get.{gap}
use ww_webcrawler.Queue.Gap.{Closed, in_gap}

module _ {A : Type 0} where
  -- The place of index `j` among the contents.
  abbrev pub place : UniqueQueue A → ℕ → ℕ
  place u j = if ltb u.head j then j - u.head - 1 else u.capacity + j - u.head - 1

  abbrev pub drop_tail : UniqueQueue A → List A → UniqueQueue A
  drop_tail u items =
      let tail = prev_index u.capacity u.tail in
      record u { tail = tail; items = items; size = gap u.capacity u.head tail }

  abbrev pub drop_both : UniqueQueue A → List A → UniqueQueue A
  drop_both u items =
      let head = prev_index u.capacity u.head in
      let tail = prev_index u.capacity u.tail in
      record u { head = head; tail = tail; items = items; size = gap u.capacity head tail }

  -- The place at which an item is lost, when the items from `start` on move.
  abbrev pub lost : UniqueQueue A → ℕ → ℕ
  lost u start = if start == u.head then 0 else place u start

module _ {A : Type 0} ⦃c : Comparable A⦄ where
  count-drop_tail :
      (u : UniqueQueue A) (items : List A)
      → IsValid u
      → (u.size == 0) ≡ false
      → count u ≡ suc (count (drop_tail u items))
  count-drop_tail u items v e = ground arith

  moved_slot :
      (u : UniqueQueue A) (start m : ℕ) (items' : List A)
      → IsValid u
      → Closed c.nil_value u start items'
      → start < u.capacity
      → start ≢ u.tail
      → (u.size == 0) ≡ false
      → suc m < count u
      → lost u start < count u
      → get_or items' (wrap u.capacity (u.head + 1 + m)) c.nil_value
        ≡ get_or u.items
            (wrap u.capacity (u.head + 1 + (if ltb m (lost u start) then m else suc m)))
            c.nil_value
  moved_slot u start m items' v f inside apart e h k = elim (Bool-cases (ltb m (lost u start))) [
    | inl before ↦ f.moved j (ground arith) ∙ rw (before, before_gap before)
    | inr behind ↦ f.moved j (ground arith) ∙ rw (behind, behind_gap behind, next_slot)
  ]
    where
      j : ℕ
      j = wrap u.capacity (u.head + 1 + m)

      before_gap : ltb m (lost u start) ≡ true → in_gap start u.tail j ≡ false
      before_gap p = ground arith

      behind_gap : ltb m (lost u start) ≡ false → in_gap start u.tail j ≡ true
      behind_gap p = ground arith

      next_slot : next_index u.capacity j ≡ wrap u.capacity (u.head + 1 + suc m)
      next_slot = ground arith

  -- The write index moves back: one item is lost.
  pub contents-drop_tail :
      (u : UniqueQueue A) (start : ℕ) (items' : List A)
      → IsValid u
      → Closed c.nil_value u start items'
      → start < u.capacity
      → start ≢ u.tail
      → (u.size == 0) ≡ false
      → lost u start < count u
      → contents (drop_tail u items') ≡ erase_at (lost u start) (contents u)
  contents-drop_tail u start items' v f inside apart e h =
      tabulate-ext (count (drop_tail u items')) _ _
        (λ m lt. moved_slot u start m items' v f inside apart e (ground arith) h)
      ∙ sym (
          erase_at-tabulate (lost u start) (count (drop_tail u items'))
            (λ x. get_or u.items (wrap u.capacity (u.head + 1 + x)) c.nil_value) (ground arith))
      ∙ ap (λ n. erase_at (lost u start) (window u.capacity u.head u.items n))
          (sym (count-drop_tail u items' v e))

  -- Both indices move back, behind items that move from the last read on: nothing is lost.
  pub contents-drop_both :
      (u : UniqueQueue A) (items' : List A)
      → IsValid u
      → Closed c.nil_value u u.head items'
      → u.head ≢ u.tail
      → (u.size == 0) ≡ false
      → contents (drop_both u items') ≡ contents u
  contents-drop_both u items' v f apart e =
      ap (window u.capacity (prev_index u.capacity u.head) items') same_count
      ∙ tabulate-ext (count u) _ _ (λ m lt.
        f.moved (wrap u.capacity (prev_index u.capacity u.head + 1 + m)) (ground arith)
        ∙ rw (stale_gap m lt) (ap (λ j. get_or u.items j c.nil_value) (ground arith)))
    where
      same_count : count (drop_both u items') ≡ count u
      same_count = ground arith

      stale_gap :
          (m : ℕ)
          → m < count u
          → in_gap u.head u.tail (wrap u.capacity (prev_index u.capacity u.head + 1 + m)) ≡ true
      stale_gap m lt = ground arith
