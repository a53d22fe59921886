-- ===== src/Sets/Set.antt =====
-- crawler/set.go. `size` is an atomic int32, kept beside the map.
pub mod Laws
pub mod Random
pub mod Race
use ww_webcrawler.Prelude.{
  ℕ, zero, suc, ◌+◌, ◌-◌, ◌%◌, ◌^◌, ◌<◌, ◌≤◌, ◌≡◌, refl, Bool, true, false, not, Option, none, some,
  List, [], ◌∷◌, Comparable, ◌=?◌, Panics, done, panicked, ◌>>=◌, if◌then◌else◌, ◌==◌, Bool-cases,
  length, ℤ, pos, negsuc, signed32, inc32, dec32, magnitude, arith,
}
use ww_webcrawler.Sets.SyncMap.{load, store, delete, is_some}

pub record Set (A : Type 0) : Type 0 where
  pub count : ℕ
  pub sm : List (A × Bool)

module _ {A : Type 0} where
  unfoldable pub new_set : Set A
  new_set = record { count = 0; sm = [] }

  unfoldable pub size : Set A → ℤ
  size s = signed32 s.count

module _ {A : Type 0} ⦃c : Comparable A⦄ where
  unfoldable pub put : Set A → A → Set A
  put s t = record {
    count = if is_some (load t s.sm) then s.count else inc32 s.count;
    sm = store t true s.sm;
  }

  unfoldable pub has : Set A → A → Bool
  has s t = is_some (load t s.sm)

  -- Go returns `k` beside the flag.
  unfoldable pub pop : Set A → A → Bool × Set A
  pop s k = (
    is_some (load k s.sm),
    record { count = if is_some (load k s.sm) then dec32 s.count else s.count; sm = delete k s.sm },
  )

  -- The `Range` of `PopRandom` over the keys that it visits: `draw n` is what the call number `n`
  -- of `rand.Int31` returns, and `k` the last key visited. A draw of 0 divides by zero.
  unfoldable pub walk : ℤ → (ℕ → ℕ) → ℕ → A → List A → Panics A
  walk s draw n k [] = done k
  walk s draw n k (j ∷ js) =
      let rest = walk s draw (n + 1) j js in
      if draw n == 0 then panicked else if magnitude s % draw n == 0 then done j else rest

  unfoldable pub pop_random : (keys : List A) → (ℕ → ℕ) → Set A → Panics (A × Bool × Set A)
  pop_random keys draw s =
      walk (size s) draw 0 c.nil_value keys >>= λ k. done (k, (pop s k).0, (pop s k).1)
