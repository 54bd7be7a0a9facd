-- ===== src/Prelude/Interleave.antt =====
-- Two sequences of events that happen at the same time.
use mathlib.Core.List.{Perm, perm_middle}
use mathlib.Core.List.Perm
use mathlib.Core.List.{List, [], ◌∷◌, ◌++◌}

-- The third list is the first and the second, each in its order.
pub data Interleave {A : Type 0} : List A → List A → List A → Type 0 where
  both_done : Interleave [] [] []
  from_first : (x : A) {xs ys zs : List A} → Interleave xs ys zs → Interleave (x ∷ xs) ys (x ∷ zs)
  from_second : (y : A) {xs ys zs : List A} → Interleave xs ys zs → Interleave xs (y ∷ ys) (y ∷ zs)

pub Interleave-Perm : {A : Type 0} {xs ys zs : List A} → Interleave xs ys zs → Perm zs (xs ++ ys)
Interleave-Perm both_done = Perm.refl []
Interleave-Perm (from_first x i) = Perm.cons x (Interleave-Perm i)
Interleave-Perm (from_second y {xs} {ys} i) =
    Perm.trans (Perm.cons y (Interleave-Perm i)) (Perm.symm (perm_middle xs ys))

-- One after the other.
pub in_order : {A : Type 0} (xs ys : List A) → Interleave xs ys (xs ++ ys)
in_order [] [] = both_done
in_order [] (y ∷ ys) = from_second y (in_order [] ys)
in_order (x ∷ xs) ys = from_first x (in_order xs ys)
