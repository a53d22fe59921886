-- ===== src/Queue/Capacity.antt =====
-- No operation of the queue changes its capacity.
use ww_webcrawler.Prelude.{◌≡◌, Option, Comparable, Result, done, arith}
use ww_webcrawler.Queue.{UniqueQueue, QueueError, get, put, remove}

module _ {A : Type 0} where
  pub capacity-get :
      (u : UniqueQueue A) {r : Result QueueError A} {u' : UniqueQueue A}
      → get u ≡ done (r, u')
      → u'.capacity ≡ u.capacity
  unfolding get
  capacity-get u e = ground arith

module _ {A : Type 0} ⦃c : Comparable A⦄ where
  pub capacity-put :
      (u : UniqueQueue A) (t : A) {e : Option QueueError} {u' : UniqueQueue A}
      → put u t ≡ done (e, u')
      → u'.capacity ≡ u.capacity
  unfolding put
  capacity-put u t h = ground arith

  pub capacity-remove :
      (u : UniqueQueue A) (t : A) {u' : UniqueQueue A}
      → remove u t ≡ done u'
      → u'.capacity ≡ u.capacity
  unfolding remove
  capacity-remove u t h = ground arith
