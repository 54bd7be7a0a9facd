-- ===== src/Circuits/Merkle/Spec.antt =====
-- The Merkle root as a recursion from the root down, and that building level by level from the
-- leaves gives it.
use native.Mathlib.Nat.{pow-suc}
use worldcoin_aggregation.Prelude.{
  ℕ, zero, suc, ◌*◌, ◌^◌, ◌≡◌, refl, sym, ap, ◌∙◌, List, [], ◌∷◌, ◌++◌, arith, length, take, drop,
  take-append, drop-append, take-append-drop, length-take, length-drop,
}
use worldcoin_aggregation.Halo2.{Chip, HiLo}
use worldcoin_aggregation.Circuits.Utils.Bytes.{all_bytes}

-- keccak256(left, right)
unfoldable pub branch_hash : Chip → HiLo → HiLo → HiLo
branch_hash c left right =
    c.keccak_fixed_len (all_bytes 16 (left.hi ∷ left.lo ∷ right.hi ∷ right.lo ∷ []))

abbrev pub first : List HiLo → HiLo
first [] = record { hi = 0; lo = 0 }
first (x ∷ xs) = x

-- The root of the tree with 2^d leaves.
unfoldable pub merkle_root : Chip → ℕ → List HiLo → HiLo
merkle_root c zero xs = first xs
merkle_root c (suc d) xs =
    branch_hash c (merkle_root c d (take (2 ^ d) xs)) (merkle_root c d (drop (2 ^ d) xs))

-- The hashes of the pairs of a level.
unfoldable pub pairs : Chip → List HiLo → List HiLo
pairs c [] = []
pairs c (x ∷ []) = []
pairs c (x ∷ y ∷ rest) = branch_hash c x y ∷ pairs c rest

-- The root, from the leaves up.
unfoldable pub root_up : Chip → ℕ → List HiLo → HiLo
root_up c zero xs = first xs
root_up c (suc d) xs = root_up c d (pairs c xs)

module _ (c : Chip) where
  pub length-pairs : (n : ℕ) (xs : List HiLo) → length xs ≡ 2 * n → length (pairs c xs) ≡ n
  unfolding pairs
  length-pairs zero [] h = refl
  length-pairs zero (x ∷ xs) h = absurd (omega arith)
  length-pairs (suc n) [] h = absurd (omega arith)
  length-pairs (suc n) (x ∷ []) h = absurd (omega arith)
  length-pairs (suc n) (x ∷ y ∷ rest) h = ap suc (length-pairs n rest (omega arith))

  pairs-append :
      (n : ℕ) (xs ys : List HiLo)
      → length xs ≡ 2 * n
      → pairs c (xs ++ ys) ≡ pairs c xs ++ pairs c ys
  unfolding pairs
  pairs-append zero [] ys h = refl
  pairs-append zero (x ∷ xs) ys h = absurd (omega arith)
  pairs-append (suc n) [] ys h = absurd (omega arith)
  pairs-append (suc n) (x ∷ []) ys h = absurd (omega arith)
  pairs-append (suc n) (x ∷ y ∷ rest) ys h =
      ap (λ t. branch_hash c x y ∷ t) (pairs-append n rest ys (omega arith))

  root_up-append :
      (d : ℕ) (xs ys : List HiLo)
      → length xs ≡ 2 ^ d
      → length ys ≡ 2 ^ d
      → root_up c (suc d) (xs ++ ys) ≡ branch_hash c (root_up c d xs) (root_up c d ys)
  unfolding root_up pairs
  root_up-append zero (x ∷ []) (y ∷ []) p q = refl
  root_up-append zero [] ys p q = absurd (omega arith)
  root_up-append zero (x ∷ x' ∷ xs) ys p q = absurd (omega arith)
  root_up-append zero (x ∷ []) [] p q = absurd (omega arith)
  root_up-append zero (x ∷ []) (y ∷ y' ∷ ys) p q = absurd (omega arith)
  root_up-append (suc d) xs ys p q =
      let p' : length xs ≡ 2 * 2 ^ d = omega (arith, pow-suc 2 d) in
      let q' : length ys ≡ 2 * 2 ^ d = omega (arith, pow-suc 2 d) in
      rw (pairs-append (2 ^ d) xs ys p') (
        root_up-append d (pairs c xs) (pairs c ys) (length-pairs (2 ^ d) xs p')
          (length-pairs (2 ^ d) ys q'))

  -- The two recursions agree on a full tree.
  pub root_up-eq-merkle_root :
      (d : ℕ) (xs : List HiLo) → length xs ≡ 2 ^ d → root_up c d xs ≡ merkle_root c d xs
  unfolding root_up merkle_root
  root_up-eq-merkle_root zero xs h = refl
  root_up-eq-merkle_root (suc d) xs h =
      let p : length (take (2 ^ d) xs) ≡ 2 ^ d =
        omega (arith, length-take (2 ^ d) xs, pow-suc 2 d) in
      let q : length (drop (2 ^ d) xs) ≡ 2 ^ d =
        omega (arith, length-drop (2 ^ d) xs, pow-suc 2 d) in
      ap (root_up c (suc d)) (sym (take-append-drop (2 ^ d) xs))
      ∙ (root_up-append d (take (2 ^ d) xs) (drop (2 ^ d) xs) p q
          ∙ rw (
            root_up-eq-merkle_root d (take (2 ^ d) xs) p,
            root_up-eq-merkle_root d (drop (2 ^ d) xs) q,
          ))

  -- The root of two halves.
  pub merkle_root-append :
      (d : ℕ) (xs ys : List HiLo)
      → length xs ≡ 2 ^ d
      → merkle_root c (suc d) (xs ++ ys) ≡ branch_hash c (merkle_root c d xs) (merkle_root c d ys)
  unfolding merkle_root
  merkle_root-append d xs ys h = rw (← h, take-append, drop-append)
