-- ===== src/Circuits/Merkle/Dummy.antt =====
-- `DUMMY_CLAIM_ROOTS` holds the Merkle roots of the trees of empty claims.
use native.Mathlib.Nat.{pow-suc}
use worldcoin_aggregation.Prelude.{
  ℕ, zero, suc, ◌+◌, ◌^◌, ◌≤◌, ◌<◌, ◌≡◌, refl, sym, ap, ◌∙◌, List, [], ◌∷◌, ◌++◌, ok, arith, index,
  length, replicate, take, drop, length-replicate, take-append-drop, length-take, length-drop,
}
use worldcoin_aggregation.Halo2.{
  Chip, IsChip, HiLo, be_bytes, from_be_bytes, be_bytes-from_be_bytes, AreBytes,
}
use worldcoin_aggregation.Circuits.Utils.Bytes.{all_bytes}
use worldcoin_aggregation.Circuits.Merkle.{dummy_levels, dummy_claim_roots, max_dummy_depth}
use worldcoin_aggregation.Circuits.Merkle.Spec.{branch_hash, merkle_root, merkle_root-append}
use mathlib.Core.List.{append-nil, append_assoc}
use worldcoin_aggregation.Circuits.Merkle.Tree.{AreBytes-append}

-- The hash of an empty claim: 32 + 20 + 32 zero bytes.
unfoldable pub dummy_leaf : Chip → HiLo
dummy_leaf c = c.keccak_fixed_len (replicate 84 0)

-- A tree of empty claims.
unfoldable pub dummy_root : Chip → ℕ → HiLo
dummy_root c d = merkle_root c d (replicate (2 ^ d) (dummy_leaf c))

-- The two halves of 32 bytes.
abbrev pub word_of : List ℕ → HiLo
word_of bs = record { hi = from_be_bytes (take 16 bs); lo = from_be_bytes (drop 16 bs) }

-- A dummy root as bytes.
pub record IsDummy (c : Chip) (d : ℕ) (bs : List ℕ) : Type 0 where
  pub long : length bs ≡ 32
  pub are_bytes : AreBytes bs
  pub root : word_of bs ≡ dummy_root c d

pub replicate-add :
    {A : Type 0} (m n : ℕ) (a : A) → replicate (m + n) a ≡ replicate m a ++ replicate n a
replicate-add zero n a = let e : 0 + n ≡ n = omega arith in rw e
replicate-add (suc m) n a =
    let e : suc m + n ≡ suc (m + n) = omega arith in rw e (ap (λ t. a ∷ t) (replicate-add m n a))

module _ {c : Chip} (chip : IsChip c) where
  hash-word_of : (bs : List ℕ) → word_of (c.keccak256 bs) ≡ c.keccak_fixed_len bs
  hash-word_of bs = rw (← chip.keccak_hi bs, ← chip.keccak_lo bs)

  bytes-word_of :
      (bs : List ℕ)
      → length bs ≡ 32
      → AreBytes bs
      → be_bytes 16 (word_of bs).hi ++ be_bytes 16 (word_of bs).lo ≡ bs
  bytes-word_of bs long are =
      let (a, b) = AreBytes-append (take 16 bs) (drop 16 bs) (rw (take-append-drop 16 bs) are) in
      rw
        (
          be_bytes-from_be_bytes 16 (take 16 bs) (omega (arith, long, length-take 16 bs)) a,
          be_bytes-from_be_bytes 16 (drop 16 bs) (omega (arith, long, length-drop 16 bs)) b,
        )
        (take-append-drop 16 bs)

  leaf-IsDummy : IsDummy c 0 (c.keccak256 (replicate 84 0))
  unfolding dummy_root merkle_root dummy_leaf
  leaf-IsDummy = record {
    long = chip.length-keccak256 _;
    are_bytes = chip.keccak256-AreBytes _;
    root = hash-word_of _;
  }

  branch-word_of :
      (bs : List ℕ)
      → length bs ≡ 32
      → AreBytes bs
      → branch_hash c (word_of bs) (word_of bs) ≡ c.keccak_fixed_len (bs ++ bs)
  unfolding branch_hash all_bytes
  branch-word_of bs long are =
      let e = bytes-word_of bs long are in
      ap c.keccak_fixed_len (rw (append-nil, ← append_assoc, e))

  next-IsDummy : (d : ℕ) (bs : List ℕ) → IsDummy c d bs → IsDummy c (suc d) (c.keccak256 (bs ++ bs))
  unfolding dummy_root
  next-IsDummy d bs h = record {
    long = chip.length-keccak256 _;
    are_bytes = chip.keccak256-AreBytes _;
    root =
        let twice : 2 ^ suc d ≡ 2 ^ d + 2 ^ d = omega (arith, pow-suc 2 d) in
        hash-word_of (bs ++ bs)
        ∙ (sym (branch-word_of bs h.long h.are_bytes)
            ∙ rw (
              twice,
              replicate-add (2 ^ d) (2 ^ d) (dummy_leaf c),
              merkle_root-append c d (replicate (2 ^ d) (dummy_leaf c))
                  (replicate (2 ^ d) (dummy_leaf c)) (length-replicate (2 ^ d) (dummy_leaf c)),
              h.root,
            ));
  }

  dummy_levels-index :
      (n d i : ℕ) (bs : List ℕ)
      → IsDummy c d bs
      → (roots : List (List ℕ)) × (dummy_levels c n (bs ∷ []) ≡ ok roots)
        × (i < n → (r : List ℕ) × (index roots i ≡ ok r) × IsDummy c (suc d + i) r)
  unfolding dummy_levels
  dummy_levels-index zero d i bs h = ([], refl, λ l. elim l [ ])
  dummy_levels-index (suc n) d zero bs h =
      let next = c.keccak256 (bs ++ bs) in
      let is = next-IsDummy d bs h in
      let (roots, e, rest) = dummy_levels-index n (suc d) 0 next is in
      let z : suc d + 0 ≡ suc d = omega arith in (next ∷ roots, rw e, λ l. (next, refl, rw z is))
  dummy_levels-index (suc n) d (suc i) bs h =
      let next = c.keccak256 (bs ++ bs) in
      let (roots, e, rest) = dummy_levels-index n (suc d) i next (next-IsDummy d bs h) in
      let z : suc d + suc i ≡ suc (suc d) + i = omega arith in
      (next ∷ roots, rw e, λ l. rw z (rest (omega arith)))

  -- The table of dummy roots is computed, and its entry at depth d, for d up to 13, is the Merkle
  -- root of 2^d empty claims, as 32 bytes.
  pub dummy_claim_roots-index :
      (d : ℕ)
      → d ≤ max_dummy_depth
      → (roots : List (List ℕ)) × (r : List ℕ) × (dummy_claim_roots c ≡ ok roots)
        × (index roots d ≡ ok r)
        × IsDummy c d r
  unfolding dummy_claim_roots
  dummy_claim_roots-index zero l =
      let (roots, e, rest) =
        dummy_levels-index 13 0 0 (c.keccak256 (replicate 84 0)) leaf-IsDummy in
      (c.keccak256 (replicate 84 0) ∷ roots, c.keccak256 (replicate 84 0), rw e, refl, leaf-IsDummy)
  dummy_claim_roots-index (suc d) l =
      let (roots, e, rest) =
        dummy_levels-index 13 0 d (c.keccak256 (replicate 84 0)) leaf-IsDummy in
      let (r, at, is) = rest (omega arith) in
      let z : suc 0 + d ≡ suc d = omega arith in
      (c.keccak256 (replicate 84 0) ∷ roots, r, rw e, at, rw (← z) is)
