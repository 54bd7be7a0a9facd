-- ===== src/Circuits/Utils/Bytes.antt =====
-- What the bytes that a circuit hashes are.
use mathlib.Core.List.{flatten}
use worldcoin_aggregation.Prelude.{
  ℕ, ◌^◌, ◌≡◌, refl, sym, ap, ◌∙◌, inl, inr, List, [], ◌∷◌, ◌++◌, map, ok, unsat, or_fault,
  traverse, arith, ltb, lt→ltb, All, ◌<◌, Bool-cases, ok-injective, >>=-eq-ok,
}
use worldcoin_aggregation.Halo2.{Chip, IsChip, be_bytes}
use worldcoin_aggregation.Circuits.Utils.{bytes_of}

-- Each number as `n` big-endian bytes, one after the other.
unfoldable pub all_bytes : ℕ → List ℕ → List ℕ
all_bytes n [] = []
all_bytes n (x ∷ xs) = be_bytes n x ++ all_bytes n xs

module _ {c : Chip} (chip : IsChip c) where
  pub or_fault-bytes :
      (x n : ℕ) {bs : List ℕ} → or_fault (c.uint_to_bytes_be x n) unsat ≡ ok bs → bs ≡ be_bytes n x
  or_fault-bytes x n h = elim (Bool-cases (ltb x (256 ^ n))) [
    | inl fits ↦ ground (arith, chip.uint_to_bytes_be_lem x n)
    | inr wide ↦ ground (arith, chip.uint_to_bytes_be_lem x n)
  ]

  traverse-bytes :
      (n : ℕ) (xs : List ℕ) {bss : List (List ℕ)}
      → traverse (λ x. or_fault (c.uint_to_bytes_be x n) unsat) xs ≡ ok bss
      → flatten bss ≡ all_bytes n xs
  unfolding traverse all_bytes flatten
  traverse-bytes n [] h = ap flatten (sym (ok-injective h))
  traverse-bytes n (x ∷ xs) h =
      let (bs, first, rest) = >>=-eq-ok (or_fault (c.uint_to_bytes_be x n) unsat) _ h in
      let (bss, others, last) = >>=-eq-ok (traverse _ xs) _ rest in
      ap flatten (sym (ok-injective last))
      ∙ (ap (λ t. t ++ flatten bss) (or_fault-bytes x n first)
          ∙ ap (λ t. be_bytes n x ++ t) (traverse-bytes n xs others))

  pub bytes_of_sound :
      (n : ℕ) (xs : List ℕ) {bs : List ℕ} → bytes_of c n xs ≡ ok bs → bs ≡ all_bytes n xs
  unfolding bytes_of
  bytes_of_sound n xs h =
      let (bss, all, last) =
        >>=-eq-ok (traverse (λ x. or_fault (c.uint_to_bytes_be x n) unsat) xs) _ h in
      sym (ok-injective last) ∙ traverse-bytes n xs all

  traverse-bytes_complete :
      (n : ℕ) (xs : List ℕ)
      → All (λ (x : ℕ). x < 256 ^ n) xs
      → traverse (λ x. or_fault (c.uint_to_bytes_be x n) unsat) xs ≡ ok (map (be_bytes n) xs)
  unfolding traverse
  traverse-bytes_complete n [] h = refl
  traverse-bytes_complete n (x ∷ xs) h =
      rw (chip.uint_to_bytes_be_lem x n, lt→ltb x (256 ^ n) h.0, traverse-bytes_complete n xs h.1)

  flatten-map-be_bytes : (n : ℕ) (xs : List ℕ) → flatten (map (be_bytes n) xs) ≡ all_bytes n xs
  unfolding flatten all_bytes
  flatten-map-be_bytes n [] = refl
  flatten-map-be_bytes n (x ∷ xs) = ap (λ t. be_bytes n x ++ t) (flatten-map-be_bytes n xs)

  -- Numbers that fit are written out.
  pub bytes_of_complete :
      (n : ℕ) (xs : List ℕ)
      → All (λ (x : ℕ). x < 256 ^ n) xs
      → bytes_of c n xs ≡ ok (all_bytes n xs)
  unfolding bytes_of
  bytes_of_complete n xs h = rw (traverse-bytes_complete n xs h, flatten-map-be_bytes n xs)
