-- ===== src/Tests/Queues.antt =====
-- The ring buffer's theorems at queues of a few URLs.
use mathlib.Core.Bool.{false≢true}
use ww_webcrawler.Prelude.{
  ℕ, zero, suc, ◌≤◌, ◌<◌, ◌≡◌, ◌≢◌, refl, String, Option, none, some, List, [], ◌∷◌, ◌++◌, inr,
  done, Result, length, get_or, get_elem?, string_comparable, load_at, store_at, arith,
}
use ww_webcrawler.Queue.{
  UniqueQueue, QueueError, new_unique_queue, get, put, remove, index_of, index_between,
  find_duplicate, inc_size,
}
use ww_webcrawler.Queue.View.{IsValid, contents}
use ww_webcrawler.Queue.Fifo
use ww_webcrawler.Queue.Fifo.{erase_at}
use ww_webcrawler.Queue.Get.{get_refines}
use ww_webcrawler.Queue.Put.{put_refines, PutOutcome}
use ww_webcrawler.Queue.Put.Corners.{put_newest_again}
use ww_webcrawler.Queue.Remove.Cases.{remove_behind_head, remove_front, remove_full_newest}
use ww_webcrawler.Queue.Runs.{gets, puts, removes, run, run_new_total, traffic, traffic_fifo}

-- Two items, behind the place of the last read.
abbrev two : UniqueQueue String
two = record { capacity = 4; size = 2; head = 0; tail = 2; items = "/old" ∷ "/a" ∷ "/b" ∷ "" ∷ [] }

two-IsValid : IsValid two
two-IsValid = ground arith

traffic_fifo_example :
    (ins : List String) × (outs : List String) × (u' : UniqueQueue String) × (traffic two
        (none ∷ some "/c" ∷ none ∷ [])
      ≡ done (ins, outs, u'))
    × (("/a" ∷ "/b" ∷ []) ++ ins ≡ outs ++ contents u')
    × IsValid u'
traffic_fifo_example = traffic_fifo two (none ∷ some "/c" ∷ none ∷ []) two-IsValid

run_new_total_example :
    (u : UniqueQueue String) × (run
        (new_unique_queue 2)
        (puts "/a" ∷ puts "/b" ∷ removes "/a" ∷ gets ∷ gets ∷ [])
      ≡ done u)
    × IsValid u
run_new_total_example =
    run_new_total 2 (puts "/a" ∷ puts "/b" ∷ removes "/a" ∷ gets ∷ gets ∷ []) (omega arith)

get_refines_example :
    (r : Result QueueError String) × (u' : UniqueQueue String) × (get two ≡ done (r, u'))
    × ((r, contents u') ≡ Fifo.pop ("/a" ∷ "/b" ∷ []))
    × IsValid u'
    × (u'.size ≡ length (contents u'))
get_refines_example = get_refines two two-IsValid

put_refines_example :
    (e : Option QueueError) × (u' : UniqueQueue String) × (put two "/c" ≡ done (e, u'))
    × PutOutcome two "/c" u' e
put_refines_example = put_refines two "/c" two-IsValid

found_a : index_of two "/a" ≡ done (some 1)
unfolding index_of index_between load_at
found_a = refl

remove_behind_head_example :
    (u' : UniqueQueue String) × (remove two "/a" ≡ done u')
    × (get_elem? (contents two) 0 ≡ some "/a")
    × (contents u' ≡ erase_at 0 (contents two))
remove_behind_head_example = remove_behind_head two "/a" 1 two-IsValid found_a (omega arith)

found_old : index_of two "/old" ≡ done (some 0)
unfolding index_of index_between load_at
found_old = refl

b_last : (j : ℕ) → 0 ≤ j → j < 2 → get_or two.items j "" ≢ "/b"
b_last zero h k e = absurd (false≢true ((string_comparable.beq_iff "/old" "/b").1 e))
b_last (suc zero) h k e = absurd (false≢true ((string_comparable.beq_iff "/a" "/b").1 e))
b_last (suc (suc j)) h k e = absurd (omega arith)

put_newest_again_example :
    (u' : UniqueQueue String) × (older : List String) × (put two "/b" ≡ done (none, u'))
    × (contents u' ≡ older ++ "/b" ∷ "/b" ∷ [])
put_newest_again_example = put_newest_again two two-IsValid (omega arith) (omega arith) b_last

-- Three items that go round the end.
abbrev round : UniqueQueue String
round = record { capacity = 4; size = 3; head = 2; tail = 1; items = "/b" ∷ "/c" ∷ "" ∷ "/a" ∷ [] }

round-IsValid : IsValid round
round-IsValid = ground arith

found_b : index_of round "/b" ≡ done (some 0)
unfolding index_of index_between load_at
found_b = refl

remove_front_example :
    (u' : UniqueQueue String) × (remove round "/b" ≡ done u')
    × (get_elem? (contents round) 1 ≡ some "/b")
    × (contents u' ≡ "/b" ∷ "/c" ∷ [])
remove_front_example =
    remove_front round "/b" 0 round-IsValid found_b (omega arith) (omega arith) (inr (omega arith))

abbrev full : UniqueQueue String
full = record { capacity = 3; size = 3; head = 1; tail = 1; items = "/b" ∷ "/c" ∷ "/a" ∷ [] }

full-IsValid : IsValid full
full-IsValid = ground arith

found_c : index_of full "/c" ≡ done (some 1)
unfolding index_of index_between load_at
found_c = refl

remove_full_newest_example :
    (u' : UniqueQueue String) × (remove full "/c" ≡ done u')
    × (length (contents full) ≡ 3)
    × (contents u' ≡ [])
remove_full_newest_example = remove_full_newest full "/c" full-IsValid found_c refl

abbrev roomy : UniqueQueue String
roomy = record {
  capacity = 5;
  size = 3;
  head = 3;
  tail = 1;
  items = "/b" ∷ "/c" ∷ "" ∷ "" ∷ "/a" ∷ [];
}

roomy-IsValid : IsValid roomy
roomy-IsValid = ground arith

abbrev crowded : UniqueQueue String
crowded = record roomy { size = 5; tail = 2; items = "/b" ∷ "/c" ∷ "/d" ∷ "" ∷ "/a" ∷ [] }

put_d : put roomy "/d" ≡ done (none, crowded)
unfolding put find_duplicate index_between load_at store_at inc_size
put_d = refl

abbrev empty : UniqueQueue String
empty = record { capacity = 2; size = 0; head = 1; tail = 1; items = "" ∷ "" ∷ [] }

empty-IsValid : IsValid empty
empty-IsValid = ground arith

-- Two items that go round the end, and one that has been taken out.
abbrev stale : UniqueQueue String
stale = record { capacity = 4; size = 2; head = 3; tail = 1; items = "/b" ∷ "/c" ∷ "" ∷ "/a" ∷ [] }

stale-IsValid : IsValid stale
stale-IsValid = ground arith
