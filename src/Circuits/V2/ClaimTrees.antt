-- ===== src/Circuits/V2/ClaimTrees.antt =====
-- What a V2 proof shows, the Merkle root of verified claims, and that a leaf does.
use worldcoin_aggregation.Prelude.{
  ℕ, zero, suc, ◌+◌, ◌^◌, ◌≤◌, ◌<◌, ◌≡◌, refl, sym, ap, ◌∙◌, true, List, ◌∷◌, ok, arith, All,
  traverse, length, take, index, >>=-eq-ok, assert-eq-ok, ok-injective, ==_iff, ◌==◌,
}
use worldcoin_aggregation.Prelude.Words.{shl64, shl64-eq}
use worldcoin_aggregation.Halo2.{Chip, IsChip, HiLo, lt_mask}
use worldcoin_aggregation.Circuits.Utils.{get_vk_hash}
use worldcoin_aggregation.Circuits.Shared.Spec.{Header, instances_of, IsRange}
use worldcoin_aggregation.Circuits.Claims.{ClaimInput, WorldcoinLeafInput, check_range}
use worldcoin_aggregation.Circuits.Claims.Verified.{Verified, check_range_sound}
use worldcoin_aggregation.Circuits.Merkle.{compute_keccak_merkle_tree}
use worldcoin_aggregation.Circuits.Merkle.Spec.{merkle_root}
use worldcoin_aggregation.Circuits.Merkle.Tree.{compute_keccak_merkle_tree-root}
use worldcoin_aggregation.Circuits.V1.Batch.{vk_hash}
use worldcoin_aggregation.Circuits.V2.Leaf
use worldcoin_aggregation.Circuits.V2.Leaf.{leaf_of, izip}
use worldcoin_aggregation.Circuits.V2.Leaf.Leaves.{padded, InField, leaves_sound}
use worldcoin_aggregation.Circuits.V2.Padding.{length-padded, padded-IsWord}
use worldcoin_aggregation.Circuits.V2.Roots.{hi_lo}

-- The Merkle root of some claims in a tree of depth `d`.
unfoldable pub claim_root : Chip → ℕ → List ClaimInput → HiLo
claim_root c d claims = merkle_root c d (padded c (2 ^ d) claims)

-- The public instances of a V2 circuit of depth `d`: exactly the claims of the range are verified.
pub record ClaimTree (c : Chip) (d : ℕ) (instances : List ℕ) : Type 0 where
  pub header : Header
  pub claims : List ClaimInput
  pub range : IsRange d header
  pub count : header.end ≡ header.start + length claims
  pub verified : All (Verified c (vk_hash header) header.root) claims
  pub shown : instances ≡ instances_of header (hi_lo (claim_root c d claims))

pub length-lt_mask : (n k : ℕ) → length (lt_mask n k) ≡ k
length-lt_mask n zero = refl
length-lt_mask zero (suc k) = ap suc (length-lt_mask zero k)
length-lt_mask (suc n) (suc k) = ap suc (length-lt_mask n k)

module _ {c : Chip} (chip : IsChip c) where
  -- The first node of the tree over padded leaves.
  tree_root :
      (d : ℕ) (claims : List ClaimInput) {leaves tree : List HiLo} {root : HiLo}
      → d < 64
      → length claims ≤ 2 ^ d
      → leaves ≡ padded c (2 ^ d) claims
      → compute_keccak_merkle_tree c leaves ≡ ok tree
      → index tree 0 ≡ ok root
      → root ≡ claim_root c d claims
  unfolding claim_root
  tree_root d claims small fits shape built at =
      let (rest, full, size) =
        compute_keccak_merkle_tree-root chip d (padded c (2 ^ d) claims) small
          (length-padded c (2 ^ d) claims fits) (padded-IsWord chip (2 ^ d) claims fits) in
      let same = ok-injective (sym (rw shape at built) ∙ full) in ok-injective (sym (rw same at at))

  -- The leaves that the mask selects.
  pub selected_sound :
      (input : WorldcoinLeafInput) (d n : ℕ) (hash : HiLo) {leaves : List HiLo}
      → d < 60
      → n ≤ 2 ^ d
      → input.max_depth ≡ d
      → All (InField c) input.claims
      → get_vk_hash c input.vk_bytes ≡ ok hash
      → (length input.claims == length (c.unsafe_lt_mask n (shl64 input.max_depth))) ≡ true
      → traverse
          (leaf_of c
            (c.unflatten_vk input.vk_bytes c.gamma_abc_g1_len)
            input.root
            input.num_public_inputs)
          (izip input.claims (c.unsafe_lt_mask n (shl64 input.max_depth)))
        ≡ ok leaves
      → All (Verified c hash input.root) (take n input.claims)
        × (length (take n input.claims) ≡ n)
        × (leaves ≡ padded c (2 ^ d) (take n input.claims))
  selected_sound input d n hash small room depth fields hashed same all =
      let mask : c.unsafe_lt_mask n (shl64 input.max_depth) ≡ lt_mask n (2 ^ d) =
        rw (depth, shl64-eq d (omega arith)) (chip.unsafe_lt_mask_lem n (2 ^ d) room) in
      let filled : length input.claims ≡ 2 ^ d =
        (==_iff (length input.claims) (2 ^ d)).0 (rw (mask, length-lt_mask n (2 ^ d)) at same) in
      rw (← filled) (
        leaves_sound chip input.vk_bytes hash input.root input.num_public_inputs n input.claims
          hashed fields (rw (mask ∙ ap (lt_mask n) (sym filled)) at all) (omega arith))

  -- What the leaf circuit shows.
  pub leaf-ClaimTree :
      (input : WorldcoinLeafInput) (d : ℕ) {out : List ℕ}
      → d < 60
      → input.max_depth ≡ d
      → All (InField c) input.claims
      → Leaf.virtual_assign_phase0 c input ≡ ok out
      → ClaimTree c d out
  unfolding Leaf.virtual_assign_phase0
  leaf-ClaimTree input d small depth fields h =
      let (n, range, h1) = >>=-eq-ok (check_range c input.start input.end input.max_depth) _ h in
      let (len, h2) = assert-eq-ok (length input.vk_bytes == c.num_fe_hilo_vkey) _ h1 in
      let (hash, hashed, h3) = >>=-eq-ok (get_vk_hash c input.vk_bytes) _ h2 in
      let (same, h4) =
        assert-eq-ok (length input.claims == length (c.unsafe_lt_mask n (shl64 input.max_depth))) _
          h3 in
      let (leaves, all, h5) =
        >>=-eq-ok
          (traverse
            (leaf_of c (c.unflatten_vk input.vk_bytes c.gamma_abc_g1_len) input.root
              input.num_public_inputs)
            (izip input.claims (c.unsafe_lt_mask n (shl64 input.max_depth))))
          _ h4 in
      let (tree, built, h6) = >>=-eq-ok (compute_keccak_merkle_tree c leaves) _ h5 in
      let (root, at, shown) = >>=-eq-ok (index tree 0) _ h6 in
      let (lt, word, fits, count) =
        check_range_sound chip input.start input.end d (omega arith) (rw depth at range) in
      let (verified, exact, shape) =
        selected_sound input d n hash (omega arith) (omega arith) depth fields hashed same all in
      let claims = take n input.claims in
      record {
        header = record {
          start = input.start;
          end = input.end;
          vk_hash_hi = hash.hi;
          vk_hash_lo = hash.lo;
          root = input.root;
        };
        claims = claims;
        range = record { nonempty = lt; word = word; fits = fits };
        count = omega arith;
        verified = verified;
        shown =
            sym (ok-injective shown)
            ∙ ap (λ (r : HiLo). input.start ∷ input.end ∷ hash.hi ∷ hash.lo ∷ input.root ∷ hi_lo r)
                (tree_root d claims (omega arith) (omega arith) shape built at);
      }
