-- ===== src/Queue/Fifo.antt =====
-- The queue that callers of crawler/uniquequeue.go think of: a list of items, oldest first.
use ww_webcrawler.Prelude.{
  ℕ, zero, suc, ◌<◌, ◌≤◌, ◌≡◌, refl, ap, ◌∙◌, some, List, [], ◌∷◌, Result, ok, err, ltb,
  if◌then◌else◌, get_elem?, tabulate, tabulate-ext, arith,
}
use ww_webcrawler.Queue.{QueueError, queue_empty}

module _ {A : Type 0} where
  abbrev pub pop : List A → Result QueueError A × List A
  pop [] = (err queue_empty, [])
  pop (x ∷ xs) = (ok x, xs)

  -- The list without its item number `k`.
  abbrev pub erase_at : ℕ → List A → List A
  erase_at k [] = []
  erase_at zero (x ∷ xs) = xs
  erase_at (suc k) (x ∷ xs) = x ∷ erase_at k xs

  pub erase_at-tabulate :
      (k n : ℕ) (f : ℕ → A)
      → k ≤ n
      → erase_at k (tabulate (suc n) f) ≡ tabulate n (λ m. f (if ltb m k then m else suc m))
  erase_at-tabulate zero n f h = tabulate-ext n _ _ (λ m lt. ap f (ground arith))
  erase_at-tabulate (suc k) zero f h = absurd (omega arith)
  erase_at-tabulate (suc k) (suc n) f h =
      ap (◌∷◌ (f 0)) (erase_at-tabulate k n (λ m. f (suc m)) (omega arith))
      ∙ tabulate-ext (suc n) (λ m. pick m) _ same_indices
    where
      pick : ℕ → A
      pick zero = f 0
      pick (suc m) = f (suc (if ltb m k then m else suc m))

      same_indices : (m : ℕ) → m < suc n → pick m ≡ f (if ltb m (suc k) then m else suc m)
      same_indices zero lt = ap f (ground arith)
      same_indices (suc m) lt = ap f (ground arith)

  pub get_elem?-tabulate : (k n : ℕ) (f : ℕ → A) → k < n → get_elem? (tabulate n f) k ≡ some (f k)
  get_elem?-tabulate k zero f h = elim h [ ]
  get_elem?-tabulate zero (suc n) f h = refl
  get_elem?-tabulate (suc k) (suc n) f h = get_elem?-tabulate k n (λ m. f (suc m)) (omega arith)
