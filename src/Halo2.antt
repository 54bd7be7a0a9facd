-- ===== src/Halo2.antt =====
-- The components outside the repository that the circuits are built from: halo2-base's gate and
-- range chips, axiom-eth's byte decomposition and Keccak chip, axiom-components' Groth16 verifier
-- and ethers' `keccak256`. They are a parameter, `Chip`; `IsChip` states their documented behaviour.
-- An assigned cell is modelled by its value, the field element's representative below the modulus
-- `p`, so that loading a witness or a constant is the identity. A constraint is a Boolean: whether
-- the values satisfy it.
mod Bytes
pub mod Laws
unfoldable pub use Bytes.{be_bytes, from_be_bytes}
pub use Bytes.{
  AreBytes, be_bytes-AreBytes, be_bytes-from_be_bytes, from_be_bytes-lt, length-be_bytes,
}
use worldcoin_aggregation.Prelude.Words.{u64_mod}
use worldcoin_aggregation.Prelude.{
  ℕ, zero, suc, ◌+◌, ◌-◌, ◌*◌, ◌%◌, ◌^◌, ◌≤◌, ◌<◌, ◌≡◌, Bool, ◌||◌, Option, none, some, List, [],
  ◌∷◌, ltb, ◌==◌, if◌then◌else◌, bit, length, get_elem?, take, drop,
}

-- `HiLo`: a 32 byte word as two 16 byte halves.
pub record HiLo : Type 0 where
  pub hi : ℕ
  pub lo : ℕ

pub record Chip : Type 0 where
  pub p : ℕ
  -- `GateInstructions`
  pub add : ℕ → ℕ → ℕ
  pub sub : ℕ → ℕ → ℕ
  pub mul : ℕ → ℕ → ℕ
  pub select : ℕ → ℕ → ℕ → ℕ
  pub is_equal : ℕ → ℕ → ℕ
  pub or : ℕ → ℕ → ℕ
  pub pow_of_two : List ℕ
  pub assert_is_const : ℕ → ℕ → Bool
  pub constrain_equal : ℕ → ℕ → Bool
  -- `RangeInstructions`; `safe_bits b` is the number of bits that the safe comparison with `b`
  -- checks its argument to have.
  pub range_check : ℕ → ℕ → Bool
  pub check_less_than : ℕ → ℕ → ℕ → Bool
  pub check_less_than_safe : ℕ → ℕ → Bool
  pub safe_bits : ℕ → ℕ
  pub is_less_than_safe : ℕ → ℕ → Option ℕ
  -- `unsafe_lt_mask`, `uint_to_bytes_be`, `KeccakChip::keccak_fixed_len`, `ethers::keccak256`
  pub unsafe_lt_mask : ℕ → ℕ → List ℕ
  pub uint_to_bytes_be : ℕ → ℕ → Option (List ℕ)
  pub keccak_fixed_len : List ℕ → HiLo
  pub keccak256 : List ℕ → List ℕ
  -- `axiom_components::groth16`: keys and proofs are their flattened field elements.
  pub num_fe_hilo_vkey : ℕ
  pub gamma_abc_g1_len : ℕ
  pub unflatten_vk : List ℕ → ℕ → List ℕ
  pub unflatten_proof : List ℕ → Option (List ℕ)
  pub groth16_verify : List ℕ → List ℕ → ℕ → List ℕ → HiLo

-- The mask whose first `n` of `len` entries are 1.
abbrev pub lt_mask : ℕ → ℕ → List ℕ
lt_mask n zero = []
lt_mask zero (suc len) = 0 ∷ lt_mask zero len
lt_mask (suc n) (suc len) = 1 ∷ lt_mask n len

-- What the circuits rely on. The comparison that is not `safe` says something only of arguments
-- that have the stated number of bits.
pub record IsChip (c : Chip) : Type 0 where
  pub p_large : 2 ^ 253 < c.p
  pub add_lem : (a b : ℕ) → a < c.p → b < c.p → c.add a b ≡ (a + b) % c.p
  pub sub_lem : (a b : ℕ) → a < c.p → b < c.p → c.sub a b ≡ (a + c.p - b) % c.p
  pub mul_lem : (a b : ℕ) → a < c.p → b < c.p → c.mul a b ≡ a * b % c.p
  pub select_lem : (a b : ℕ) (s : Bool) → c.select a b (bit s) ≡ (if s then a else b)
  pub is_equal_lem : (a b : ℕ) → c.is_equal a b ≡ bit (a == b)
  pub or_lem : (s t : Bool) → c.or (bit s) (bit t) ≡ bit (s || t)
  pub pow_of_two_lem : (i : ℕ) → i < 253 → get_elem? c.pow_of_two i ≡ some (2 ^ i)
  pub assert_is_const_lem : (a b : ℕ) → c.assert_is_const a b ≡ (a == b)
  pub constrain_equal_lem : (a b : ℕ) → c.constrain_equal a b ≡ (a == b)
  pub range_check_lem : (a bits : ℕ) → bits ≤ 252 → c.range_check a bits ≡ ltb a (2 ^ bits)
  pub check_less_than_lem :
      (a b bits : ℕ)
      → bits ≤ 252
      → a < 2 ^ bits
      → b < 2 ^ bits
      → c.check_less_than a b bits ≡ ltb a b
  pub check_less_than_safe_lem : (a b : ℕ) → b < u64_mod → c.check_less_than_safe a b ≡ ltb a b
  pub safe_bits_lem : (b : ℕ) → b < 2 ^ c.safe_bits b
  pub is_less_than_safe_lem :
      (a b : ℕ)
      → b < u64_mod
      → c.is_less_than_safe a b ≡ (if ltb a (2 ^ c.safe_bits b) then some (bit (ltb a b)) else none)
  pub unsafe_lt_mask_lem : (n len : ℕ) → n ≤ len → c.unsafe_lt_mask n len ≡ lt_mask n len
  pub uint_to_bytes_be_lem :
      (x n : ℕ) → c.uint_to_bytes_be x n ≡ (if ltb x (256 ^ n) then some (be_bytes n x) else none)
  pub keccak_hi :
      (bs : List ℕ) → (c.keccak_fixed_len bs).hi ≡ from_be_bytes (take 16 (c.keccak256 bs))
  pub keccak_lo :
      (bs : List ℕ) → (c.keccak_fixed_len bs).lo ≡ from_be_bytes (drop 16 (c.keccak256 bs))
  pub length-keccak256 : (bs : List ℕ) → length (c.keccak256 bs) ≡ 32
  pub keccak256-AreBytes : (bs : List ℕ) → AreBytes (c.keccak256 bs)
