-- ===== src/Sets/Set/Race/Bools.antt =====
-- Truth tables of who touches an element before and after a step.
use ww_webcrawler.Prelude.{◌≡◌, refl, Bool, true, false, not, ◌&&◌, ◌||◌}

pub and_not : (b : Bool) → (b && not b) ≡ false
and_not true = refl
and_not false = refl

pub apart_left : (a b : Bool) → (a && b) ≡ false → b ≡ true → a ≡ false
apart_left true b h e = cc
apart_left false b h e = refl

pub apart_right : (a b : Bool) → (a && b) ≡ false → a ≡ true → b ≡ false
apart_right true b h e = h
apart_right false b h e = cc

pub or_left : (a b : Bool) → (a || b) ≡ false → a ≡ false
or_left true b h = h
or_left false b h = refl

pub or_right : (a b : Bool) → (a || b) ≡ false → b ≡ false
or_right true b h = cc
or_right false b h = h

pub still_apart : (a' a b : Bool) → (a' && not a) ≡ false → (a && b) ≡ false → (a' && b) ≡ false
still_apart true true b h k = k
still_apart true false b h k = cc
still_apart false a b h k = refl

pub keep_apart : (a b' b : Bool) → (b' && not b) ≡ false → (a && b) ≡ false → (a && b') ≡ false
keep_apart true true true h k = k
keep_apart true true false h k = h
keep_apart true false b h k = refl
keep_apart false b' b h k = refl

pub narrow_left : (a' a b : Bool) → (a' && not a) ≡ false → ((a' || b) && not (a || b)) ≡ false
narrow_left true true b h = refl
narrow_left true false b h = cc
narrow_left false true true h = refl
narrow_left false true false h = refl
narrow_left false false b h = and_not b

pub narrow_right : (a b' b : Bool) → (b' && not b) ≡ false → ((a || b') && not (a || b)) ≡ false
narrow_right true b' b h = refl
narrow_right false b' b h = h
