-- ===== src/Circuits/Merkle/Tree.antt =====
-- `compute_keccak_merkle_tree` ends on 2^d leaves, with the Merkle root in front.
use native.Mathlib.Nat.{pow-suc}
use worldcoin_aggregation.Prelude.{
  ℕ, zero, suc, ◌+◌, ◌*◌, ◌^◌, ◌≤◌, ◌<◌, ◌≡◌, refl, true, false, List, [], ◌∷◌, ◌++◌, ok, arith,
  All, length, take, drop, length-append, length-take, length-drop, take-append-drop, inl, inr,
  Bool-cases, ==_refl, ◌==◌,
}
use worldcoin_aggregation.Prelude.Words.{pow_mono}
use worldcoin_aggregation.Halo2.{Chip, IsChip, HiLo, from_be_bytes-lt, AreBytes}
use worldcoin_aggregation.Circuits.Utils.Bytes.{bytes_of_complete}
use worldcoin_aggregation.Circuits.Merkle.{
  is_power_of_two_below, is_power_of_two, compute_keccak_for_branch_nodes, next_level,
  merkle_tree_fuel, compute_keccak_merkle_tree,
}
use worldcoin_aggregation.Circuits.Merkle.Spec.{
  branch_hash, merkle_root, pairs, root_up, length-pairs, root_up-eq-merkle_root,
}

-- The two halves have 16 bytes.
pub record IsWord (h : HiLo) : Type 0 where
  pub hi_lt : h.hi < 256 ^ 16
  pub lo_lt : h.lo < 256 ^ 16

is_power_of_two_below-pow : (k d : ℕ) → d < k → is_power_of_two_below k (2 ^ d) ≡ true
unfolding is_power_of_two_below
is_power_of_two_below-pow zero d h = elim h [ ]
is_power_of_two_below-pow (suc k) d h = elim (Bool-cases (d == k)) [
  | inl same ↦ let e : d ≡ k = ground arith in rw (e, ==_refl (2 ^ k))
  | inr other ↦
      let below : d < k = ground arith in ground (arith, is_power_of_two_below-pow k d below)
]

pub is_power_of_two-pow : (d : ℕ) → d < 64 → is_power_of_two (2 ^ d) ≡ true
unfolding is_power_of_two
is_power_of_two-pow d h = is_power_of_two_below-pow 64 d h

pub AreBytes-append : (xs ys : List ℕ) → AreBytes (xs ++ ys) → AreBytes xs × AreBytes ys
AreBytes-append [] ys h = (tt, h)
AreBytes-append (x ∷ xs) ys h = let (a, b) = AreBytes-append xs ys h.1 in ((h.0, a), b)

module _ {c : Chip} (chip : IsChip c) where
  -- Every hash is a word.
  pub keccak-IsWord : (bs : List ℕ) → IsWord (c.keccak_fixed_len bs)
  keccak-IsWord bs =
      let hash = c.keccak256 bs in
      let (a, b) =
        AreBytes-append (take 16 hash) (drop 16 hash)
          (rw (take-append-drop 16 hash) (chip.keccak256-AreBytes bs)) in
      let len = chip.length-keccak256 bs in
      record {
        hi_lt =
            rw (chip.keccak_hi bs)
              (from_be_bytes-lt 16 (take 16 hash) (omega (arith, len, length-take 16 hash)) a);
        lo_lt =
            rw (chip.keccak_lo bs)
              (from_be_bytes-lt 16 (drop 16 hash) (omega (arith, len, length-drop 16 hash)) b);
      }

  pub branch_nodes-eq :
      (l r : HiLo)
      → IsWord l
      → IsWord r
      → compute_keccak_for_branch_nodes c l r ≡ ok (branch_hash c l r)
  unfolding compute_keccak_for_branch_nodes branch_hash
  branch_nodes-eq l r wl wr = rw (
      bytes_of_complete chip 16 (l.hi ∷ l.lo ∷ r.hi ∷ r.lo ∷ [])
        (wl.hi_lt, (wl.lo_lt, (wr.hi_lt, (wr.lo_lt, tt)))))

  next_level-eq :
      (n : ℕ) (xs : List HiLo)
      → length xs ≡ 2 * n
      → All IsWord xs
      → (next_level c xs ≡ ok (pairs c xs)) × All IsWord (pairs c xs)
  unfolding next_level pairs branch_hash
  next_level-eq zero [] h w = (refl, tt)
  next_level-eq zero (x ∷ xs) h w = absurd (omega arith)
  next_level-eq (suc n) [] h w = absurd (omega arith)
  next_level-eq (suc n) (x ∷ []) h w = absurd (omega arith)
  next_level-eq (suc n) (x ∷ y ∷ rest) h w =
      let (ih, ws) = next_level-eq n rest (omega arith) w.1.1 in
      (rw (branch_nodes-eq x y w.0 w.1.0, ih), (keccak-IsWord _, ws))

  merkle_tree_fuel-root :
      (fuel d : ℕ) (leaves : List HiLo)
      → d < fuel
      → d < 64
      → length leaves ≡ 2 ^ d
      → All IsWord leaves
      → (rest : List HiLo) × (merkle_tree_fuel fuel c leaves ≡ ok (root_up c d leaves ∷ rest))
        × (length rest + 2 ≡ 2 ^ suc d)
  unfolding merkle_tree_fuel root_up
  merkle_tree_fuel-root zero d leaves f s h w = elim f [ ]
  merkle_tree_fuel-root (suc fuel) zero (x ∷ []) f s h w =
      ([], unfold is_power_of_two is_power_of_two_below in refl, refl)
  merkle_tree_fuel-root (suc fuel) zero [] f s h w = absurd (omega arith)
  merkle_tree_fuel-root (suc fuel) zero (x ∷ y ∷ xs) f s h w = absurd (omega arith)
  merkle_tree_fuel-root (suc fuel) (suc d) leaves f s h w =
      let twice : length leaves ≡ 2 * 2 ^ d = omega (arith, pow-suc 2 d) in
      let pos : 2 ^ 0 ≤ 2 ^ d = pow_mono 0 d (omega arith) in
      let many : (length leaves == 1) ≡ false = ground arith in
      let (level, ws) = next_level-eq (2 ^ d) leaves twice w in
      let (rest, ih, size) =
        merkle_tree_fuel-root fuel d (pairs c leaves) (omega arith) (omega arith)
          (length-pairs c (2 ^ d) leaves twice) ws in
      let power : is_power_of_two (length leaves) ≡ true = rw h (is_power_of_two-pow (suc d) s) in
      (
        rest ++ leaves,
        rw (power, many, level, ih),
        omega (arith, length-append rest leaves, size, pow-suc 2 d, pow-suc 2 (suc d)),
      )

  pow-gt : (d : ℕ) → d < 2 ^ d
  pow-gt zero = omega arith
  pow-gt (suc d) = omega (arith, pow-suc 2 d, pow-gt d)

  -- On 2^d words, for d below 64, the tree is built: it has 2^(d + 1) - 1 nodes and begins with
  -- the root that the recursion from the top defines.
  pub compute_keccak_merkle_tree-root :
      (d : ℕ) (leaves : List HiLo)
      → d < 64
      → length leaves ≡ 2 ^ d
      → All IsWord leaves
      → (rest : List HiLo) × (compute_keccak_merkle_tree c leaves
          ≡ ok (merkle_root c d leaves ∷ rest))
        × (length rest + 2 ≡ 2 ^ suc d)
  unfolding compute_keccak_merkle_tree
  compute_keccak_merkle_tree-root d leaves s h w =
      let (rest, built, size) =
        merkle_tree_fuel-root (suc (length leaves)) d leaves (omega (arith, pow-gt d)) s h w in
      (rest, rw (← root_up-eq-merkle_root c d leaves h) built, size)
