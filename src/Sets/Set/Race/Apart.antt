-- ===== src/Sets/Set/Race/Apart.antt =====
-- Goroutines in calls on different elements: whatever their order, the counter is right in the end.
use ww_webcrawler.Prelude.{
  ℕ, ◌+◌, ◌%◌, ◌^◌, ◌≡◌, refl, Bool, true, false, not, ◌&&◌, List, [], ◌∷◌, Comparable, length,
  arith,
}
use ww_webcrawler.Sets.SyncMap.{load, IsMap}
use ww_webcrawler.Sets.Set.{Set}
use ww_webcrawler.Sets.Set.Race.{Caller, putting, absent, storing, popping, deleted, returned, move}
use ww_webcrawler.Sets.Set.Laws.{IsValid}
use ww_webcrawler.Sets.Set.Race.Bools.{
  apart_left, apart_right, or_left, or_right, still_apart, keep_apart, narrow_left, narrow_right,
}
use ww_webcrawler.Sets.Set.Race.Moves.{
  touches, touched, AllSee, excess, total, move_lem, excess_elsewhere, elsewhere-Sees,
  total_elsewhere, elsewhere-AllSee,
}

module _ {A : Type 0} ⦃c : Comparable A⦄ where
  -- A step of any one of the goroutines.
  pub data Turn : Set A → List (Caller A) → Set A → List (Caller A) → Type 0 where
    first :
        {s : Set A} {x : Caller A} {xs : List (Caller A)}
        → Turn s (x ∷ xs) (move x s).1 ((move x s).0 ∷ xs)
    later :
        {s s' : Set A} {x : Caller A} {xs xs' : List (Caller A)}
        → Turn s xs s' xs'
        → Turn s (x ∷ xs) s' (x ∷ xs')

  pub data Turns (s : Set A) (xs : List (Caller A)) : Set A → List (Caller A) → Type 0 where
    begun : Turns s xs s xs
    turned :
        {t u : Set A} {ys zs : List (Caller A)} → Turns s xs t ys → Turn t ys u zs → Turns s xs u zs

  abbrev pub AreApart : List (Caller A) → Type 0
  AreApart [] = Unit {0}
  AreApart (x ∷ xs) = ((k : A) → (touches x k && touched xs k) ≡ false) × AreApart xs

  record Turned (s : Set A) (xs : List (Caller A)) (s' : Set A) (xs' : List (Caller A))
      : Type 0 where
    is_map : IsMap s'.sm
    all_see : AllSee s'.sm xs'
    apart : AreApart xs'
    elsewhere : (k : A) → touched xs k ≡ false → load k s'.sm ≡ load k s.sm
    narrows : (k : A) → (touched xs' k && not (touched xs k)) ≡ false
    counts :
        (m : ℕ)
        → s.count ≡ (length s.sm + total s.sm xs + m) % 2 ^ 32
        → s'.count ≡ (length s'.sm + total s'.sm xs' + m) % 2 ^ 32

  Turn_lem :
      {s s' : Set A} {xs xs' : List (Caller A)}
      → Turn s xs s' xs'
      → IsMap s.sm
      → AllSee s.sm xs
      → AreApart xs
      → Turned s xs s' xs'
  Turn_lem {s} (first {x = x} {xs = xs}) v see apart =
      let moved = move_lem x s v see.0 in
      let others : (k : A) → touched xs k ≡ true → load k (move x s).1.sm ≡ load k s.sm =
        λ k e. moved.elsewhere k (apart_left (touches x k) (touched xs k) (apart.0 k) e) in
      record {
        is_map = moved.is_map;
        all_see = (moved.sees, elsewhere-AllSee s.sm (move x s).1.sm xs others see.1);
        apart = (
          λ k.
              still_apart (touches (move x s).0 k) (touches x k) (touched xs k) (moved.narrows k)
                (apart.0 k),
          apart.1,
        );
        elsewhere = λ k e. moved.elsewhere k (or_left (touches x k) (touched xs k) e);
        narrows = λ k.
            narrow_left (touches (move x s).0 k) (touches x k) (touched xs k) (moved.narrows k);
        counts = λ m e. omega (
          arith,
          moved.counts (total s.sm xs + m) (omega (arith, e)),
          total_elsewhere s.sm (move x s).1.sm xs others,
        );
      }
  Turn_lem {s} {s'} (later {x = x} {xs = xs} {xs' = xs'} turn) v see apart =
      let rest = Turn_lem turn v see.1 apart.1 in
      let mine : (k : A) → touches x k ≡ true → load k s'.sm ≡ load k s.sm =
        λ k e. rest.elsewhere k (apart_right (touches x k) (touched xs k) (apart.0 k) e) in
      record {
        is_map = rest.is_map;
        all_see = (elsewhere-Sees s.sm s'.sm x mine see.0, rest.all_see);
        apart = (
          λ k. keep_apart (touches x k) (touched xs' k) (touched xs k) (rest.narrows k) (apart.0 k),
          rest.apart,
        );
        elsewhere = λ k e. rest.elsewhere k (or_right (touches x k) (touched xs k) e);
        narrows = λ k. narrow_right (touches x k) (touched xs' k) (touched xs k) (rest.narrows k);
        counts = λ m e. omega (
          arith,
          rest.counts (excess s.sm x + m) (omega (arith, e)),
          excess_elsewhere s.sm s'.sm x mine,
        );
      }

  -- The calls before their first step, and after their last.
  abbrev pub AllBegin : List (Caller A) → Type 0
  AllBegin [] = Unit {0}
  AllBegin (putting t ∷ xs) = AllBegin xs
  AllBegin (popping t ∷ xs) = AllBegin xs
  AllBegin (x ∷ xs) = ⊥

  abbrev pub AllReturned : List (Caller A) → Type 0
  AllReturned [] = Unit {0}
  AllReturned (x ∷ xs) = (x ≡ returned) × AllReturned xs

  total_begin : (m : List (A × Bool)) (xs : List (Caller A)) → AllBegin xs → total m xs ≡ 0
  total_begin m [] h = refl
  total_begin m (putting t ∷ xs) h = omega (arith, total_begin m xs h)
  total_begin m (popping t ∷ xs) h = omega (arith, total_begin m xs h)
  total_begin m (absent t ∷ xs) h = absurd h
  total_begin m (storing t ∷ xs) h = absurd h
  total_begin m (deleted t ∷ xs) h = absurd h
  total_begin m (returned ∷ xs) h = absurd h

  see_begin : (m : List (A × Bool)) (xs : List (Caller A)) → AllBegin xs → AllSee m xs
  see_begin m [] h = tt
  see_begin m (putting t ∷ xs) h = (tt, see_begin m xs h)
  see_begin m (popping t ∷ xs) h = (tt, see_begin m xs h)
  see_begin m (absent t ∷ xs) h = absurd h
  see_begin m (storing t ∷ xs) h = absurd h
  see_begin m (deleted t ∷ xs) h = absurd h
  see_begin m (returned ∷ xs) h = absurd h

  total_returned : (m : List (A × Bool)) (xs : List (Caller A)) → AllReturned xs → total m xs ≡ 0
  total_returned m [] h = refl
  total_returned m (x ∷ xs) h = rw h.0 (omega (arith, total_returned m xs h.1))

  record Running (s : Set A) (xs : List (Caller A)) : Type 0 where
    is_map : IsMap s.sm
    all_see : AllSee s.sm xs
    apart : AreApart xs
    counted : s.count ≡ (length s.sm + total s.sm xs) % 2 ^ 32

  Turns-Running :
      {s : Set A} {xs : List (Caller A)} {s' : Set A} {xs' : List (Caller A)}
      → Turns s xs s' xs'
      → Running s xs
      → Running s' xs'
  Turns-Running begun v = v
  Turns-Running (turned turns turn) v =
      let w = Turns-Running turns v in
      let made = Turn_lem turn w.is_map w.all_see w.apart in
      record {
        is_map = made.is_map;
        all_see = made.all_see;
        apart = made.apart;
        counted = omega (arith, made.counts 0 (omega (arith, w.counted)));
      }

  -- Any number of goroutines put elements into a consistent set and pop elements from it, no two of
  -- them the same element. In whatever order their steps come, when all have returned the set is
  -- consistent: its counter is right.
  pub apart-IsValid :
      (s s' : Set A) (xs xs' : List (Caller A))
      → IsValid s
      → AllBegin xs
      → AreApart xs
      → Turns s xs s' xs'
      → AllReturned xs'
      → IsValid s'
  apart-IsValid s s' xs xs' v begin apart turns end =
      let w = Turns-Running turns (record {
        is_map = v.is_map;
        all_see = see_begin s.sm xs begin;
        apart = apart;
        counted = omega (arith, v.counted, total_begin s.sm xs begin);
      }) in
      record { is_map = w.is_map; counted = omega (arith, w.counted, total_returned s'.sm xs' end) }
