-- ===== src/Queue/View.antt =====
-- What a queue holds, oldest first, and when its fields are consistent.
use ww_webcrawler.Prelude.{
  ℕ, ◌+◌, ◌-◌, ◌<◌, ◌≤◌, ◌≡◌, List, Comparable, ltb, ◌==◌, if◌then◌else◌, length, get_or, tabulate,
  length-tabulate,
}
use ww_webcrawler.Queue.{UniqueQueue}

-- An index that may lie one round too far.
abbrev pub wrap : ℕ → ℕ → ℕ
wrap capacity n = if ltb n capacity then n else n - capacity

-- The number of items held, from the indices.
abbrev pub span : ℕ → ℕ → ℕ → ℕ
span capacity head tail = if ltb head tail then tail - head else capacity + tail - head

module _ {A : Type 0} where
  abbrev pub count : UniqueQueue A → ℕ
  count u = if u.size == 0 then 0 else span u.capacity u.head u.tail

  -- The index of the `k`-th oldest item: the items follow the last read.
  abbrev pub slot : UniqueQueue A → ℕ → ℕ
  slot u k = wrap u.capacity (u.head + 1 + k)

  -- The size is exact, but that `put` may count one too many when the items go round the end.
  pub record IsValid (u : UniqueQueue A) : Type 0 where
    pub capacity_pos : 0 < u.capacity
    pub items_length : length u.items ≡ u.capacity
    pub head_in : u.head < u.capacity
    pub tail_in : u.tail < u.capacity
    pub empty_indices : u.size ≡ 0 → u.head ≡ u.tail
    pub size_covers : count u ≤ u.size
    pub size_excess : u.size ≤ count u + 1
    pub size_in : u.size ≤ u.capacity

module _ {A : Type 0} ⦃c : Comparable A⦄ where
  abbrev pub window : ℕ → ℕ → List A → ℕ → List A
  window capacity head items n =
      tabulate n (λ k. get_or items (wrap capacity (head + 1 + k)) c.nil_value)

  abbrev pub contents : UniqueQueue A → List A
  contents u = window u.capacity u.head u.items (count u)

  pub length-contents : (u : UniqueQueue A) → length (contents u) ≡ count u
  length-contents u = length-tabulate (count u) _
