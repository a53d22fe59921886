-- ===== src/Queue.antt =====
-- crawler/uniquequeue.go: the ring buffer that a crawler keeps its claimed URLs in.
-- The pointers of the struct are shared by all its copies, so a method returns the new struct.
-- Each exported method holds the mutex throughout: a call is one step, as is its unexported body.
-- A capacity is at least 1 (the crawler's is 40). At 0 Go's indices would start at -1, and no
-- method would read them.
pub mod View
pub mod Loops
pub mod Fifo
pub mod Get
pub mod Put
pub mod Gap
pub mod Remove
pub mod Runs
pub mod Capacity
use ww_webcrawler.Prelude.{
  ℕ, zero, suc, ◌+◌, ◌-◌, Option, none, some, List, Comparable, ◌=?◌, Panics, done, panicked, ◌>>=◌,
  load_at, store_at, Result, ok, err, ltb, leb, ◌==◌, if◌then◌else◌, replicate,
}

pub data QueueError : Type 0 where
  queue_full queue_empty queue_duplicate : QueueError

pub record UniqueQueue (A : Type 0) : Type 0 where
  pub capacity : ℕ
  pub size : ℕ
  -- the index in which the last read was performed
  pub head : ℕ
  -- the index in which the last write was performed
  pub tail : ℕ
  pub items : List A

-- The circular steps of an index.
abbrev pub next_index : ℕ → ℕ → ℕ
next_index capacity i = if ltb i (capacity - 1) then i + 1 else 0

abbrev pub prev_index : ℕ → ℕ → ℕ
prev_index capacity i = if i == 0 then capacity - 1 else i - 1

-- What a second search finds, where the first found nothing.
abbrev pub or_search : Panics (Option ℕ) → Panics (Option ℕ) → Panics (Option ℕ)
or_search first second = first >>= λ found. elim found [ none ↦ second | some i ↦ done (some i) ]

module _ {A : Type 0} where
  -- `for j := lo; j < hi; j++ { u.items[j-1] = u.items[j] }`, entered at `lo` from 1 on
  unfoldable pub shift : ℕ → ℕ → List A → Panics (List A)
  shift zero j items = done items
  shift (suc rounds) j items =
      load_at items j >>= λ x. store_at items (j - 1) x >>= λ items'. shift rounds (j + 1) items'

  -- the same loop where index 0 goes to the last index
  unfoldable pub shift_front : ℕ → ℕ → ℕ → List A → Panics (List A)
  shift_front zero capacity j items = done items
  shift_front (suc rounds) capacity j items = load_at items j >>= λ x.
      store_at items (if j == 0 then capacity - 1 else j - 1) x >>= λ items'.
      shift_front rounds capacity (j + 1) items'

  -- defaulting to 0 if the indices match
  unfoldable pub dec_size : UniqueQueue A → UniqueQueue A
  dec_size u =
      if u.head == u.tail
      then record u { size = 0 }
      else if leb u.head u.tail
      then record u { size = u.tail - u.head }
      else record u { size = u.capacity + u.tail - u.head }

  -- defaulting to full if the indices match
  unfoldable pub inc_size : UniqueQueue A → UniqueQueue A
  inc_size u =
      if u.head == u.tail
      then record u { size = u.capacity }
      else if leb u.head u.tail
      then record u { size = u.tail - u.head }
      else record u { size = u.capacity + u.tail - u.head + 1 }

  unfoldable pub get : UniqueQueue A → Panics (Result QueueError A × UniqueQueue A)
  unfolding dec_size
  get u =
      if u.size == 0
      then done (err queue_empty, u)
      else let head = next_index u.capacity u.head in
        load_at u.items head >>= λ x. done (ok x, dec_size (record u { head = head }))

  -- The loops of `remove`: the items behind index `i` move one place to the front.
  unfoldable pub close_gap : UniqueQueue A → ℕ → Panics (List A)
  unfolding shift shift_front
  close_gap u i =
      if ltb u.head u.tail
      then shift (u.tail - i) (i + 1) u.items
      else if leb u.head i
      then (shift (u.capacity - (i + 1)) (i + 1) u.items >>= λ items.
          shift_front (u.tail + 1) u.capacity 0 items)
      else if leb i u.tail
      then shift_front (u.tail + 1 - i) u.capacity i u.items
      else panicked

  -- The index updates of `remove`.
  unfoldable pub step_back : UniqueQueue A → ℕ → List A → UniqueQueue A
  unfolding dec_size
  step_back u i items = dec_size (record u {
    head = if i == u.head then prev_index u.capacity u.head else u.head;
    tail = prev_index u.capacity u.tail;
    items = items;
  })

module _ {A : Type 0} ⦃c : Comparable A⦄ where
  unfoldable pub new_unique_queue : ℕ → UniqueQueue A
  new_unique_queue capacity = record {
    capacity = capacity;
    size = 0;
    head = capacity - 1;
    tail = capacity - 1;
    items = replicate capacity c.nil_value;
  }

  -- `for i := lo; i < hi; i++ { if u.items[i] == t { return i } }`, with `hi - lo` rounds left
  unfoldable pub index_between : ℕ → ℕ → List A → A → Panics (Option ℕ)
  index_between zero i items t = done none
  index_between (suc rounds) i items t =
      let rest = index_between rounds (i + 1) items t in
      load_at items i >>= λ x. if x =? t then done (some i) else rest

  -- the check for duplicates of `put`
  unfoldable pub find_duplicate : UniqueQueue A → A → Panics (Option ℕ)
  unfolding index_between
  find_duplicate u t =
      if leb u.head u.tail
      then index_between (u.tail - u.head) u.head u.items t
      else or_search (index_between (u.capacity - u.tail) u.tail u.items t)
          (index_between u.head 0 u.items t)

  unfoldable pub put : UniqueQueue A → A → Panics (Option QueueError × UniqueQueue A)
  unfolding find_duplicate inc_size
  put u t =
      if leb u.capacity u.size
      then done (some queue_full, u)
      else find_duplicate u t >>= λ found. elim found [
        | some i ↦ done (some queue_duplicate, u)
        | none ↦
            let tail = next_index u.capacity u.tail in
            store_at u.items tail t >>= λ items.
            done (none, inc_size (record u { tail = tail; items = items }))
      ]

  -- `none` is the source's -1.
  unfoldable pub index_of : UniqueQueue A → A → Panics (Option ℕ)
  unfolding index_between
  index_of u t =
      if u.size == 0
      then done none
      else if ltb u.head u.tail
      then index_between (u.tail - u.head) u.head u.items t
      else or_search (index_between (u.capacity - u.head) u.head u.items t)
          (index_between u.tail 0 u.items t)

  unfoldable pub remove : UniqueQueue A → A → Panics (UniqueQueue A)
  unfolding index_of close_gap step_back
  remove u t = index_of u t >>= λ found. elim found [
    | none ↦ done u
    | some i ↦ close_gap u i >>= λ items. done (step_back u i items)
  ]
