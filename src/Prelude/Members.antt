-- ===== src/Prelude/Members.antt =====
-- Properties of all members of a list.
use mathlib.Core.Path.{◌≡◌, refl, sym, ◌∙◌}
use mathlib.Core.List.{List, [], ◌∷◌, ◌++◌, append_assoc}

module _ {ℓ} {A : Type ℓ} where
  abbrev pub Each : (A → Type 0) → List A → Type 0
  Each P [] = Unit {0}
  Each P (x ∷ xs) = P x × Each P xs

  module _ (P : A → Type 0) where
    pub member-Each : (before after : List A) (x : A) → Each P (before ++ x ∷ after) → P x
    member-Each [] after x h = h.0
    member-Each (b ∷ before) after x h = member-Each before after x h.1

    pub replaced-Each :
        (before after : List A) (x y : A)
        → P y
        → Each P (before ++ x ∷ after)
        → Each P (before ++ y ∷ after)
    replaced-Each [] after x y p h = (p, h.1)
    replaced-Each (b ∷ before) after x y p h = (h.0, replaced-Each before after x y p h.1)

    pub weaker-Each : (Q : A → Type 0) (xs : List A) → ((x : A) → P x → Q x) → Each P xs → Each Q xs
    weaker-Each Q [] f h = tt
    weaker-Each Q (x ∷ xs) f h = (f x h.0, weaker-Each Q xs f h.1)

    pub append-Each : (xs : List A) (y : A) → Each P xs → P y → Each P (xs ++ y ∷ [])
    append-Each [] y h p = (p, tt)
    append-Each (x ∷ xs) y h p = (h.0, append-Each xs y h.1 p)

    -- What holds of a member may depend on its place.
    pub placed-Each :
        (Q : A → Type 0) (before after : List A)
        → ((b a : List A) (x : A) → before ++ after ≡ b ++ x ∷ a → P x → Q x)
        → Each P after
        → Each Q after
    placed-Each Q before [] f h = tt
    placed-Each Q before (x ∷ after) f h = (
      f before after x refl h.0,
      placed-Each Q (before ++ x ∷ []) after
          (λ b a y e. f b a y (sym (append_assoc before (x ∷ []) after) ∙ e)) h.1,
    )
