-- ===== src/System/V1/Hashed.antt =====
-- The output of the V1 root circuit can be hashed: its values are words of 32 bytes.
use worldcoin_aggregation.Prelude.{
  ℕ, ◌+◌, ◌-◌, ◌*◌, ◌^◌, ◌<◌, ◌≡◌, ◌∙◌, true, List, [], ◌∷◌, ◌++◌, ok, arith, All, All-append,
  length, length-append, ◌==◌, >>=-eq-ok, assert-eq-ok, ok-injective,
}
use worldcoin_aggregation.Prelude.Words.{word64, word64-eq, shl64-eq, pow_mono}
use worldcoin_aggregation.Halo2.{Chip, IsChip, HiLo, length-be_bytes, be_bytes}
use worldcoin_aggregation.Circuits.Merkle.Tree.{keccak-IsWord}
use worldcoin_aggregation.Circuits.Utils.{bytes_of, get_vk_hash, num_bytes_vk}
use worldcoin_aggregation.Circuits.Utils.Bytes.{all_bytes, bytes_of_complete}
use worldcoin_aggregation.Circuits.Shared.Spec.{Header, instances_of}
use worldcoin_aggregation.Circuits.Claims.{ClaimInput, grant_ids, receivers, nullifier_hashes}
use worldcoin_aggregation.Circuits.V1.Batch.{columns, vk_hash}
use worldcoin_aggregation.Circuits.V1.Root.{output_hash}
use worldcoin_aggregation.Circuits.V1.Root.Output.{preimage, output_of-batch, length-columns}
use worldcoin_aggregation.System.{Setup}
use worldcoin_aggregation.System.Honest.{Terms, Accepts}

abbrev pub FitsWord : ℕ → Type 0
FitsWord x = x < 256 ^ 32

length-all_bytes : (n : ℕ) (xs : List ℕ) → length (all_bytes n xs) ≡ n * length xs
unfolding all_bytes
length-all_bytes n [] = omega arith
length-all_bytes n (x ∷ xs) =
    length-append (be_bytes n x) (all_bytes n xs)
    ∙ grind (arith, length-be_bytes n x, length-all_bytes n xs)

-- The words of the columns.
columns-words :
    {Vk Root Claim : Type 0} (s : Setup Vk Root Claim) (t : Terms Root Claim) (xs : List ClaimInput)
    → All (Accepts s t) xs
    → All FitsWord (grant_ids xs) × All FitsWord (receivers xs) × All FitsWord (nullifier_hashes xs)
columns-words s t [] h = (tt, tt, tt)
columns-words s t (x ∷ xs) (good, rest) =
    let (a, b, c) = columns-words s t xs rest in
    (
      (Accepts.grant_id_word good, a),
      (Accepts.receiver_word good, b),
      (Accepts.nullifier_hash_word good, c),
    )

pub columns-FitsWord :
    {Vk Root Claim : Type 0} (s : Setup Vk Root Claim) (t : Terms Root Claim) (xs : List ClaimInput)
    → All (Accepts s t) xs
    → All FitsWord (columns xs)
columns-FitsWord s t xs h =
    let (a, b, c) = columns-words s t xs h in
    All-append FitsWord (grant_ids xs) (receivers xs ++ nullifier_hashes xs) a
      (All-append FitsWord (receivers xs) (nullifier_hashes xs) b c)

module _ {c : Chip} (chip : IsChip c) where
  pub output_hash_complete :
      (h : Header) (xs : List ClaimInput) (n d : ℕ)
      → d < 50
      → length xs ≡ 2 ^ d
      → FitsWord h.vk_hash_hi
      → FitsWord h.vk_hash_lo
      → FitsWord h.root
      → FitsWord n
      → All FitsWord (columns xs)
      → output_hash c (instances_of h (columns xs)) n d
        ≡ ok (c.keccak_fixed_len (preimage (vk_hash h) h.root n xs))
  unfolding output_hash
  output_hash_complete h xs n d small filled hi lo root count words =
      let output = h.vk_hash_hi ∷ h.vk_hash_lo ∷ h.root ∷ n ∷ columns xs in
      let pow = pow_mono d 50 (omega arith) in
      let spelled = bytes_of_complete chip 32 output (hi, (lo, (root, (count, words)))) in
      let len : length (all_bytes 32 output) ≡ 32 * (4 + 3 * 2 ^ d) =
        length-all_bytes 32 output ∙ omega (arith, length-columns xs (2 ^ d) filled) in
      let bound : word64 (32 * (4 + 3 * 2 ^ d)) ≡ 32 * (4 + 3 * 2 ^ d) =
        word64-eq _ (omega arith) in
      let same : (length (all_bytes 32 output) == 32 * (4 + 3 * 2 ^ d)) ≡ true = ground arith in
      rw (
        output_of-batch h xs n d (omega arith) filled,
        spelled,
        shl64-eq d (omega arith),
        bound,
        same,
      )

  -- The halves of the hash of a key are words.
  pub get_vk_hash-FitsWord :
      (vk_bytes : List ℕ) {hash : HiLo}
      → get_vk_hash c vk_bytes ≡ ok hash
      → FitsWord hash.hi × FitsWord hash.lo
  unfolding get_vk_hash
  get_vk_hash-FitsWord vk_bytes {hash} e =
      let (bytes, spelled, e1) = >>=-eq-ok (bytes_of c 32 vk_bytes) _ e in
      let (len, e2) = assert-eq-ok (length bytes == (num_bytes_vk - 1) * 2) _ e1 in
      let word = keccak-IsWord chip bytes in
      let same : c.keccak_fixed_len bytes ≡ hash = ok-injective e2 in
      rw (← same) (omega (arith, word.hi_lt), omega (arith, word.lo_lt))
