-- ===== src/Sets/Set/Race/Moves.antt =====
-- What one step of one goroutine does, and that it does not disturb the others.
use ww_webcrawler.Prelude.{
  ℕ, ◌+◌, ◌%◌, ◌^◌, ◌≡◌, refl, ap, ◌∙◌, Bool, true, false, not, ◌&&◌, ◌||◌, Option, some, none,
  List, [], ◌∷◌, Comparable, beq_self, ◌=?◌, if◌then◌else◌, length, inc32-mod, dec32-mod, arith,
}
use ww_webcrawler.Sets.SyncMap.{
  load, store, delete, is_some, IsMap, load-store, load-delete, store-IsMap, delete-IsMap,
  length-store, length-delete,
}
use ww_webcrawler.Sets.Set.{Set}
use ww_webcrawler.Sets.Set.Race.{Caller, putting, absent, storing, popping, deleted, returned, move}
use ww_webcrawler.Sets.Set.Race.Bools.{and_not}

is_some-none : (l : Option Bool) → is_some l ≡ false → l ≡ none
is_some-none none h = refl
is_some-none (some b) h = cc

module _ {A : Type 0} ⦃c : Comparable A⦄ where
  -- Whether a goroutine is in a call on an element.
  abbrev pub touches : Caller A → A → Bool
  touches (putting t) k = t =? k
  touches (absent t) k = t =? k
  touches (storing t) k = t =? k
  touches (popping t) k = t =? k
  touches (deleted t) k = t =? k
  touches returned k = false

  abbrev pub touched : List (Caller A) → A → Bool
  touched [] k = false
  touched (x ∷ xs) k = touches x k || touched xs k

  -- What a goroutine has seen of its element still holds.
  abbrev pub Sees : List (A × Bool) → Caller A → Type 0
  Sees m (absent t) = load t m ≡ none
  Sees m x = Unit {0}

  abbrev pub AllSee : List (A × Bool) → List (Caller A) → Type 0
  AllSee m [] = Unit {0}
  AllSee m (x ∷ xs) = Sees m x × AllSee m xs

  -- By how much the counter is ahead because of a goroutine.
  abbrev pub excess : List (A × Bool) → Caller A → ℕ
  excess m (storing t) = if is_some (load t m) then 0 else 1
  excess m (deleted t) = 1
  excess m x = 0

  abbrev pub total : List (A × Bool) → List (Caller A) → ℕ
  total m [] = 0
  total m (x ∷ xs) = excess m x + total m xs

  -- What one step does to the set, apart from the counter.
  pub record Moved (x : Caller A) (s : Set A) : Type 0 where
    pub is_map : IsMap (move x s).1.sm
    pub elsewhere : (k : A) → touches x k ≡ false → load k (move x s).1.sm ≡ load k s.sm
    pub sees : Sees (move x s).1.sm (move x s).0
    pub narrows : (k : A) → (touches (move x s).0 k && not (touches x k)) ≡ false
    pub counts :
        (m : ℕ)
        → s.count ≡ (length s.sm + excess s.sm x + m) % 2 ^ 32
        → (move x s).1.count
          ≡ (length (move x s).1.sm + excess (move x s).1.sm (move x s).0 + m) % 2 ^ 32

  pub move_lem : (x : Caller A) (s : Set A) → IsMap s.sm → Sees s.sm x → Moved x s
  unfolding move
  move_lem (putting t) s v see = record {
    is_map = v;
    elsewhere = λ k e. refl;
    sees = seen (is_some (load t s.sm)) refl;
    narrows = λ k. narrow (is_some (load t s.sm)) k;
    counts = λ m e. rw (level (is_some (load t s.sm)) refl) e;
  }
    where
      seen : (b : Bool) → is_some (load t s.sm) ≡ b → Sees s.sm (if b then storing t else absent t)
      seen true h = tt
      seen false h = is_some-none (load t s.sm) h

      narrow :
          (b : Bool) (k : A)
          → (touches (if b then storing t else absent t) k && not (t =? k)) ≡ false
      narrow true k = and_not (t =? k)
      narrow false k = and_not (t =? k)

      level :
          (b : Bool)
          → is_some (load t s.sm) ≡ b
          → excess s.sm (if b then storing t else absent t) ≡ 0
      level true h = rw h refl
      level false h = refl
  move_lem (absent t) s v see = record {
    is_map = v;
    elsewhere = λ k e. refl;
    sees = tt;
    narrows = λ k. and_not (t =? k);
    counts = λ m e. rw see (omega (arith, e, inc32-mod (length s.sm + m)));
  }
  move_lem (storing t) s v see = record {
    is_map = store-IsMap t true s.sm v;
    elsewhere = λ k e. load-store t k true s.sm ∙ rw e refl;
    sees = tt;
    narrows = λ k. refl;
    counts = λ m e. e ∙ ap (λ n. (n + m) % 2 ^ 32) (stored (is_some (load t s.sm)) refl);
  }
    where
      stored :
          (b : Bool)
          → is_some (load t s.sm) ≡ b
          → length s.sm + (if is_some (load t s.sm) then 0 else 1) ≡ length (store t true s.sm) + 0
      stored true h = rw (length-store t true s.sm) (rw h refl)
      stored false h = rw (length-store t true s.sm) (rw h (omega arith))
  move_lem (popping t) s v see = record {
    is_map = delete-IsMap t s.sm v;
    elsewhere = λ k e. load-delete t k s.sm v ∙ rw e refl;
    sees = seen (is_some (load t s.sm));
    narrows = λ k. narrow (is_some (load t s.sm)) k;
    counts = λ m e. e ∙ ap (λ n. (n + m) % 2 ^ 32) (taken (is_some (load t s.sm)) refl);
  }
    where
      seen : (b : Bool) → Sees (delete t s.sm) (if b then deleted t else returned)
      seen true = tt
      seen false = tt

      narrow :
          (b : Bool) (k : A)
          → (touches (if b then deleted t else returned) k && not (t =? k)) ≡ false
      narrow true k = and_not (t =? k)
      narrow false k = refl

      taken :
          (b : Bool)
          → is_some (load t s.sm) ≡ b
          → length s.sm + 0
            ≡ length (delete t s.sm) + excess (delete t s.sm) (if b then deleted t else returned)
      taken true h = rw (← length-delete t s.sm) (rw h (omega arith))
      taken false h = rw (← length-delete t s.sm) (rw h refl)
  move_lem (deleted t) s v see = record {
    is_map = v;
    elsewhere = λ k e. refl;
    sees = tt;
    narrows = λ k. refl;
    counts = λ m e. omega (arith, e, dec32-mod (length s.sm + m));
  }
  move_lem returned s v see = record {
    is_map = v;
    elsewhere = λ k e. refl;
    sees = tt;
    narrows = λ k. refl;
    counts = λ m e. e;
  }

  -- A goroutine is not disturbed by a change elsewhere.
  module _ (m m' : List (A × Bool)) where
    pub excess_elsewhere :
        (x : Caller A)
        → ((k : A) → touches x k ≡ true → load k m' ≡ load k m)
        → excess m' x ≡ excess m x
    excess_elsewhere (putting t) h = refl
    excess_elsewhere (absent t) h = refl
    excess_elsewhere (storing t) h = rw (h t (beq_self t)) refl
    excess_elsewhere (popping t) h = refl
    excess_elsewhere (deleted t) h = refl
    excess_elsewhere returned h = refl

    pub elsewhere-Sees :
        (x : Caller A)
        → ((k : A) → touches x k ≡ true → load k m' ≡ load k m)
        → Sees m x
        → Sees m' x
    elsewhere-Sees (putting t) h see = tt
    elsewhere-Sees (absent t) h see = h t (beq_self t) ∙ see
    elsewhere-Sees (storing t) h see = tt
    elsewhere-Sees (popping t) h see = tt
    elsewhere-Sees (deleted t) h see = tt
    elsewhere-Sees returned h see = tt

    pub total_elsewhere :
        (xs : List (Caller A))
        → ((k : A) → touched xs k ≡ true → load k m' ≡ load k m)
        → total m' xs ≡ total m xs
    total_elsewhere [] h = refl
    total_elsewhere (x ∷ xs) h = omega (
      arith,
      excess_elsewhere x (λ k e. h k (ground arith)),
      total_elsewhere xs (λ k e. h k (ground arith)),
    )

    pub elsewhere-AllSee :
        (xs : List (Caller A))
        → ((k : A) → touched xs k ≡ true → load k m' ≡ load k m)
        → AllSee m xs
        → AllSee m' xs
    elsewhere-AllSee [] h see = tt
    elsewhere-AllSee (x ∷ xs) h see = (
      elsewhere-Sees x (λ k e. h k (ground arith)) see.0,
      elsewhere-AllSee xs (λ k e. h k (ground arith)) see.1,
    )
