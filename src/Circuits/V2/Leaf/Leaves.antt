-- ===== src/Circuits/V2/Leaf/Leaves.antt =====
-- The leaves of the claim tree: the hashes of the claims in the range, then those of empty claims.
use native.Mathlib.Nat.{mod-eq_of_lt}
use worldcoin_aggregation.Prelude.{
  ℕ, zero, suc, ◌-◌, ◌*◌, ◌≤◌, ◌<◌, ◌≡◌, refl, sym, ap, ◌∙◌, List, [], ◌∷◌, ◌++◌, map, ok, traverse,
  arith, All, length, take, replicate, ok-injective, >>=-eq-ok,
}
use worldcoin_aggregation.Halo2.{Chip, IsChip, HiLo, be_bytes, lt_mask}
use worldcoin_aggregation.Halo2.Laws.{p_large}
use worldcoin_aggregation.Circuits.Utils.{get_vk_hash}
use worldcoin_aggregation.Circuits.Utils.Bytes.{or_fault-bytes}
use worldcoin_aggregation.Circuits.Claims.{ClaimInput, verify_claim}
use worldcoin_aggregation.Circuits.Claims.Verified.{Verified, verify_claim_sound}
use worldcoin_aggregation.Circuits.Merkle.Dummy.{dummy_leaf}
use worldcoin_aggregation.Circuits.V2.Leaf.{izip, leaf_of}

-- keccak256(abi.encodePacked(grant_id, receiver, nullifier_hash))
unfoldable pub leaf_hash : Chip → ClaimInput → HiLo
leaf_hash c claim =
    c.keccak_fixed_len (
      be_bytes 32 claim.grant_id
      ++ (be_bytes 20 claim.receiver ++ be_bytes 32 claim.nullifier_hash))

-- The leaves of a tree of depth `d`.
unfoldable pub padded : Chip → ℕ → List ClaimInput → List HiLo
padded c n claims = map (leaf_hash c) claims ++ replicate (n - length claims) (dummy_leaf c)

pub padded-nil : (c : Chip) (n : ℕ) → padded c (suc n) [] ≡ dummy_leaf c ∷ padded c n []
unfolding padded
padded-nil c n =
    let e : suc n - 0 ≡ suc (n - 0) = omega arith in ap (λ k. replicate k (dummy_leaf c)) e

pub padded-cons :
    (c : Chip) (n : ℕ) (x : ClaimInput) (xs : List ClaimInput)
    → padded c (suc n) (x ∷ xs) ≡ leaf_hash c x ∷ padded c n xs
unfolding padded
padded-cons c n x xs =
    let e : suc n - suc (length xs) ≡ n - length xs = omega arith in
    ap (λ k. leaf_hash c x ∷ (map (leaf_hash c) xs ++ replicate k (dummy_leaf c))) e

-- The claim is given by field elements.
pub record InField (c : Chip) (claim : ClaimInput) : Type 0 where
  pub grant_id_lt : claim.grant_id < c.p
  pub receiver_lt : claim.receiver < c.p
  pub nullifier_hash_lt : claim.nullifier_hash < c.p

module _ {c : Chip} (chip : IsChip c) where
  pub mul-one : (x : ℕ) → x < c.p → c.mul x 1 ≡ x
  mul-one x l =
      let e : x * 1 ≡ x = omega arith in
      chip.mul_lem x 1 l (omega (arith, p_large chip)) ∙ rw e (mod-eq_of_lt l)

  pub mul-zero : (x : ℕ) → x < c.p → c.mul x 0 ≡ 0
  mul-zero x l =
      let e : x * 0 ≡ 0 = omega arith in
      chip.mul_lem x 0 l (omega (arith, p_large chip))
      ∙ rw e (mod-eq_of_lt (omega (arith, p_large chip)))

  -- What one round hashes.
  leaf_of_sound :
      (vk : List ℕ) (root n : ℕ) (claim : ClaimInput) (mask : ℕ) {h : HiLo}
      → leaf_of c vk root n (claim, mask) ≡ ok h
      → (verify_claim c vk root n claim ≡ ok tt)
        × (h
            ≡ c.keccak_fixed_len (
                be_bytes 32 (c.mul claim.grant_id mask)
                ++ (be_bytes 20 (c.mul claim.receiver mask)
                    ++ be_bytes 32 (c.mul claim.nullifier_hash mask))))
  unfolding leaf_of
  leaf_of_sound vk root n claim mask h =
      let (u, verified, h1) = >>=-eq-ok (verify_claim c vk root n claim) _ h in
      let (b1, e1, h2) = >>=-eq-ok _ _ h1 in
      let (b2, e2, h3) = >>=-eq-ok _ _ h2 in
      let (b3, e3, h4) = >>=-eq-ok _ _ h3 in
      (
        verified,
        sym (ok-injective h4)
            ∙ rw (
              or_fault-bytes chip _ 32 e1,
              or_fault-bytes chip _ 20 e2,
              or_fault-bytes chip _ 32 e3,
            ),
      )

  masked-on :
      (claim : ClaimInput)
      → InField c claim
      → c.keccak_fixed_len (
          be_bytes 32 (c.mul claim.grant_id 1)
          ++ (be_bytes 20 (c.mul claim.receiver 1) ++ be_bytes 32 (c.mul claim.nullifier_hash 1)))
        ≡ leaf_hash c claim
  unfolding leaf_hash
  masked-on claim f = rw (
    mul-one claim.grant_id f.grant_id_lt,
    mul-one claim.receiver f.receiver_lt,
    mul-one claim.nullifier_hash f.nullifier_hash_lt,
  )

  masked-off :
      (claim : ClaimInput)
      → InField c claim
      → c.keccak_fixed_len (
          be_bytes 32 (c.mul claim.grant_id 0)
          ++ (be_bytes 20 (c.mul claim.receiver 0) ++ be_bytes 32 (c.mul claim.nullifier_hash 0)))
        ≡ dummy_leaf c
  unfolding dummy_leaf
  masked-off claim f =
      rw
        (
          mul-zero claim.grant_id f.grant_id_lt,
          mul-zero claim.receiver f.receiver_lt,
          mul-zero claim.nullifier_hash f.nullifier_hash_lt,
        )
        (unfold be_bytes in refl)

  -- All claims are verified; the first `k` are hashed and the others replaced by empty ones.
  pub leaves_sound :
      (vk_bytes : List ℕ) (vk_hash : HiLo) (root n k : ℕ) (claims : List ClaimInput)
      {leaves : List HiLo}
      → get_vk_hash c vk_bytes ≡ ok vk_hash
      → All (InField c) claims
      → traverse
          (leaf_of c (c.unflatten_vk vk_bytes c.gamma_abc_g1_len) root n)
          (izip claims (lt_mask k (length claims)))
        ≡ ok leaves
      → k ≤ length claims
      → All (Verified c vk_hash root) (take k claims)
        × (length (take k claims) ≡ k)
        × (leaves ≡ padded c (length claims) (take k claims))
  unfolding traverse izip
  leaves_sound vk_bytes vk_hash root n zero [] hashed f h l =
      (tt, refl, unfold padded in sym (ok-injective h))
  leaves_sound vk_bytes vk_hash root n (suc k) [] hashed f h l = elim l [ ]
  leaves_sound vk_bytes vk_hash root n zero (x ∷ xs) hashed f h l =
      let (leaf, first, h1) = >>=-eq-ok (leaf_of _ _ root n (x, 0)) _ h in
      let (leaves, others, h2) = >>=-eq-ok _ _ h1 in
      let (v, len, ih) =
        leaves_sound vk_bytes vk_hash root n zero xs hashed f.1 others (omega arith) in
      let (ok_claim, eq) = leaf_of_sound _ root n x 0 first in
      (tt, refl, sym (ok-injective h2) ∙ rw (eq, masked-off x f.0, ih, padded-nil))
  leaves_sound vk_bytes vk_hash root n (suc k) (x ∷ xs) hashed f h l =
      let (leaf, first, h1) = >>=-eq-ok (leaf_of _ _ root n (x, 1)) _ h in
      let (leaves, others, h2) = >>=-eq-ok _ _ h1 in
      let (v, len, ih) =
        leaves_sound vk_bytes vk_hash root n k xs hashed f.1 others (omega arith) in
      let (ok_claim, eq) = leaf_of_sound _ root n x 1 first in
      (
        (verify_claim_sound chip vk_bytes vk_hash root n x hashed ok_claim, v),
        ap suc len,
        sym (ok-injective h2) ∙ rw (eq, masked-on x f.0, ih, padded-cons),
      )
