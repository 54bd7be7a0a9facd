-- ===== src/Circuits/V2/Padding.antt =====
-- The padded leaves of the claim tree.
use worldcoin_aggregation.Prelude.{
  ℕ, zero, suc, ◌+◌, ◌-◌, ◌≤◌, ◌≡◌, sym, ap, ◌∙◌, List, [], ◌∷◌, ◌++◌, arith, All, length,
  length-replicate, replicate,
}
use worldcoin_aggregation.Halo2.{Chip, IsChip}
use worldcoin_aggregation.Circuits.Claims.{ClaimInput}
use worldcoin_aggregation.Circuits.Merkle.Tree.{IsWord, keccak-IsWord}
use worldcoin_aggregation.Circuits.Merkle.Dummy.{dummy_leaf, replicate-add}
use worldcoin_aggregation.Circuits.V2.Leaf.Leaves.{leaf_hash, padded, padded-cons}

module _ (c : Chip) where
  padded-empty : (n : ℕ) → padded c n [] ≡ replicate n (dummy_leaf c)
  unfolding padded
  padded-empty n = let e : n - 0 ≡ n = omega arith in ap (λ k. replicate k (dummy_leaf c)) e

  -- More room is filled with empty claims.
  pub padded-add :
      (m n : ℕ) (xs : List ClaimInput)
      → length xs ≤ m
      → padded c (m + n) xs ≡ padded c m xs ++ replicate n (dummy_leaf c)
  padded-add m n [] h =
      padded-empty (m + n)
      ∙ (replicate-add m n (dummy_leaf c)
          ∙ ap (λ t. t ++ replicate n (dummy_leaf c)) (sym (padded-empty m)))
  padded-add zero n (x ∷ xs) h = elim h [ ]
  padded-add (suc m) n (x ∷ xs) h =
      let e : suc m + n ≡ suc (m + n) = omega arith in
      rw (e, padded-cons c (m + n) x xs, padded-cons c m x xs, padded-add m n xs (omega arith))

  -- Claims that fill their half are followed by the other half.
  pub padded-append :
      (m n : ℕ) (xs ys : List ClaimInput)
      → length xs ≡ m
      → padded c (m + n) (xs ++ ys) ≡ padded c m xs ++ padded c n ys
  padded-append zero n [] ys h = let e : zero + n ≡ n = omega arith in rw (e, padded-empty 0)
  padded-append (suc m) n [] ys h = absurd (omega arith)
  padded-append zero n (x ∷ xs) ys h = absurd (omega arith)
  padded-append (suc m) n (x ∷ xs) ys h =
      let e : suc m + n ≡ suc (m + n) = omega arith in
      rw (
        e,
        padded-cons c (m + n) x (xs ++ ys),
        padded-cons c m x xs,
        padded-append m n xs ys (omega arith),
      )

  pub length-padded : (n : ℕ) (xs : List ClaimInput) → length xs ≤ n → length (padded c n xs) ≡ n
  length-padded n [] h = rw (padded-empty n) (length-replicate n (dummy_leaf c))
  length-padded zero (x ∷ xs) h = elim h [ ]
  length-padded (suc n) (x ∷ xs) h =
      rw (padded-cons c n x xs) (ap suc (length-padded n xs (omega arith)))

module _ {c : Chip} (chip : IsChip c) where
  pub replicate-IsWord : (n : ℕ) → All IsWord (replicate n (dummy_leaf c))
  unfolding dummy_leaf
  replicate-IsWord zero = tt
  replicate-IsWord (suc n) = (keccak-IsWord chip _, replicate-IsWord n)

  pub padded-IsWord : (n : ℕ) (xs : List ClaimInput) → length xs ≤ n → All IsWord (padded c n xs)
  unfolding leaf_hash
  padded-IsWord n [] h = rw (padded-empty c n) (replicate-IsWord n)
  padded-IsWord zero (x ∷ xs) h = elim h [ ]
  padded-IsWord (suc n) (x ∷ xs) h =
      rw (padded-cons c n x xs) (keccak-IsWord chip _, padded-IsWord n xs (omega arith))
