-- ===== src/Sets/SyncMap.antt =====
-- Go's `sync.Map` as a list of keys and values, a call at a time. `Range` visits each key once, in
-- an order that the caller does not choose: the order is an argument of the code that ranges.
use ww_webcrawler.Prelude.{
  ◌+◌, ◌≡◌, refl, Bool, true, false, ◌||◌, Option, none, some, List, [], ◌∷◌, Comparable, ◌=?◌,
  if◌then◌else◌, length, arith,
}

abbrev pub is_some : {V : Type 0} → Option V → Bool
is_some none = false
is_some (some v) = true

abbrev pub elem : {K : Type 0} ⦃c : Comparable K⦄ → K → List K → Bool
elem k [] = false
elem k (j ∷ js) = j =? k || elem k js

module _ {K V : Type 0} ⦃c : Comparable K⦄ where
  unfoldable pub load : K → List (K × V) → Option V
  load k [] = none
  load k ((j, v) ∷ m) = if j =? k then some v else load k m

  unfoldable pub store : K → V → List (K × V) → List (K × V)
  store k v [] = (k, v) ∷ []
  store k v ((j, w) ∷ m) = if j =? k then (k, v) ∷ m else (j, w) ∷ store k v m

  -- `LoadAndDelete`, without the value that `load` gives.
  unfoldable pub delete : K → List (K × V) → List (K × V)
  delete k [] = []
  delete k ((j, w) ∷ m) = if j =? k then m else (j, w) ∷ delete k m

  -- The keys are distinct.
  abbrev pub IsMap : List (K × V) → Type 0
  IsMap [] = Unit {0}
  IsMap ((k, v) ∷ m) = (load k m ≡ none) × IsMap m

  pub load-store :
      (k j : K) (v : V) (m : List (K × V))
      → load j (store k v m) ≡ (if k =? j then some v else load j m)
  unfolding load store
  load-store k j v [] = refl
  load-store k j v ((i, w) ∷ m) =
      ground (arith, c.beq_iff k j, c.beq_iff i k, c.beq_iff i j, load-store k j v m)

  pub store_same : (k : K) (v : V) (m : List (K × V)) → load k m ≡ some v → store k v m ≡ m
  unfolding load store
  store_same k v [] h = cc
  store_same k v ((i, w) ∷ m) h = ground (arith, c.beq_iff i k, store_same k v m)

  pub load-delete :
      (k j : K) (m : List (K × V))
      → IsMap m
      → load j (delete k m) ≡ (if k =? j then none else load j m)
  unfolding load delete
  load-delete k j [] d = ground arith
  load-delete k j ((i, w) ∷ m) d =
      ground (arith, c.beq_iff k j, c.beq_iff i k, c.beq_iff i j, load-delete k j m)

  pub store-IsMap : (k : K) (v : V) (m : List (K × V)) → IsMap m → IsMap (store k v m)
  unfolding load store
  store-IsMap k v [] d = (refl, tt)
  store-IsMap k v ((j, w) ∷ m) d =
      ground (arith, c.beq_iff j k, c.beq_iff k j, load-store k j v m, store-IsMap k v m)

  pub delete-IsMap : (k : K) (m : List (K × V)) → IsMap m → IsMap (delete k m)
  unfolding load delete
  delete-IsMap k [] d = tt
  delete-IsMap k ((j, w) ∷ m) d =
      ground (arith, c.beq_iff j k, c.beq_iff k j, load-delete k j m, delete-IsMap k m)

  pub length-store :
      (k : K) (v : V) (m : List (K × V))
      → length (store k v m) ≡ (if is_some (load k m) then length m else length m + 1)
  unfolding load store
  length-store k v [] = refl
  length-store k v ((j, w) ∷ m) = ground (arith, length-store k v m)

  pub length-delete :
      (k : K) (m : List (K × V))
      → (if is_some (load k m) then length (delete k m) + 1 else length (delete k m)) ≡ length m
  unfolding load delete
  length-delete k [] = refl
  length-delete k ((j, w) ∷ m) = ground (arith, length-delete k m)

  -- `keys` is what a `Range` over `m` may visit: the keys of the map, each once.
  pub record Visits (m : List (K × V)) (keys : List K) : Type 0 where
    pub all_keys : (k : K) → elem k keys ≡ is_some (load k m)
    pub once : length keys ≡ length m
