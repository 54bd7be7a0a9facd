-- ===== src/Tests/Chips.antt =====
-- A chip that has the properties that the circuits rely on: the arithmetic is that of the BN254
-- scalar field, the hash and the proof check are simple functions in place of the real ones.
use native.Mathlib.Nat.{pow-suc}
use worldcoin_aggregation.Prelude.{
  ℕ, zero, suc, ◌+◌, ◌-◌, ◌*◌, ◌%◌, ◌^◌, ◌<◌, ◌≡◌, refl, Bool, true, false, ◌||◌, not, some, none,
  List, [], ◌∷◌, arith, bit, ltb, get_elem?, length, take, drop, if◌then◌else◌, ◌==◌, ok, map,
}
use worldcoin_aggregation.Prelude.{◌≤◌, inl, inr, Bool-cases}
use worldcoin_aggregation.Prelude.Words.{pow_mono}
use worldcoin_aggregation.Halo2.{
  Chip, IsChip, be_bytes, from_be_bytes, length-be_bytes, be_bytes-AreBytes, lt_mask,
}
use worldcoin_aggregation.Circuits.Snarks.{Aggregator, Snark}

abbrev pub field : ℕ
field = 21888242871839275222246405745257275088548364400416034343698204186575808495617

powers : ℕ → ℕ → List ℕ
powers zero i = []
powers (suc n) i = 2 ^ i ∷ powers n (i + 1)

-- The bits of the lookup table of a circuit with 2^20 rows.
abbrev pub lookup_bits : ℕ
lookup_bits = 19

-- The number of lookups that a range check of the bits of `b` makes, from `r` on.
unfoldable pub lookups : ℕ → ℕ → ℕ → ℕ
lookups zero r b = r
lookups (suc fuel) r b =
    let more = lookups fuel (suc r) b in if ltb b (2 ^ (lookup_bits * r)) then r else more

abbrev toy_hash : List ℕ → List ℕ
toy_hash bs = be_bytes 32 (from_be_bytes bs * 31 + length bs)

abbrev head_or_zero : List ℕ → ℕ
head_or_zero [] = 0
head_or_zero (x ∷ xs) = x

-- A proof is accepted if it begins with 7.
unfoldable pub toy_chip : Chip
unfolding powers
toy_chip = record {
  p = field;
  add = λ a b. (a + b) % field;
  sub = λ a b. (a + field - b) % field;
  mul = λ a b. a * b % field;
  select = λ a b s. if s == 0 then b else a;
  is_equal = λ a b. bit (a == b);
  or = λ s t. bit (not (s == 0) || not (t == 0));
  pow_of_two = powers 253 0;
  assert_is_const = λ a b. a == b;
  constrain_equal = λ a b. a == b;
  range_check = λ a bits. ltb a (2 ^ bits);
  check_less_than = λ a b bits. ltb a b;
  check_less_than_safe = λ a b. ltb a b;
  safe_bits = λ b. lookup_bits * lookups b 0 b;
  is_less_than_safe =
      λ a b. if ltb a (2 ^ (lookup_bits * lookups b 0 b)) then some (bit (ltb a b)) else none;
  unsafe_lt_mask = lt_mask;
  uint_to_bytes_be = λ x n. if ltb x (256 ^ n) then some (be_bytes n x) else none;
  keccak_fixed_len = λ bs. record {
    hi = from_be_bytes (take 16 (toy_hash bs));
    lo = from_be_bytes (drop 16 (toy_hash bs));
  };
  keccak256 = toy_hash;
  num_fe_hilo_vkey = 48;
  gamma_abc_g1_len = 5;
  unflatten_vk = λ vk n. vk;
  unflatten_proof = some;
  groth16_verify = λ vk proof n inputs. record { hi = 0; lo = bit (head_or_zero proof == 7) };
}

powers-lem : (n j i : ℕ) → i < n → get_elem? (powers n j) i ≡ some (2 ^ (j + i))
unfolding powers
powers-lem zero j i l = elim l [ ]
powers-lem (suc n) j zero l = let e : j + 0 ≡ j = omega arith in rw e
powers-lem (suc n) j (suc i) l =
    let e : j + suc i ≡ j + 1 + i = omega arith in rw e (powers-lem n (j + 1) i (omega arith))

pub below-pow : (b : ℕ) → b < 2 ^ b
below-pow zero = omega arith
below-pow (suc b) = omega (arith, pow-suc 2 b, below-pow b)

lookups_end : (fuel r b : ℕ) → b ≤ r + fuel → b < 2 ^ (lookup_bits * lookups fuel r b)
unfolding lookups
lookups_end zero r b h = omega (arith, below-pow r, pow_mono r (lookup_bits * r) (omega arith))
lookups_end (suc fuel) r b h = elim (Bool-cases (ltb b (2 ^ (lookup_bits * r)))) [
  | inl enough ↦ rw enough (ground arith)
  | inr more ↦ rw more (lookups_end fuel (suc r) b (omega arith))
]

lookups-enough : (b : ℕ) → b < 2 ^ (lookup_bits * lookups b 0 b)
lookups-enough b = lookups_end b 0 b (omega arith)

-- A bound that is not zero takes at least one lookup.
pub lookups-nonzero : (b : ℕ) → 0 < b → 0 < lookups b 0 b
lookups-nonzero b pos = elim (Bool-cases (lookups b 0 b == 0)) [
  | inl no_lookup ↦
      let none_made : lookup_bits * lookups b 0 b ≡ 0 = ground arith in
      let small : b < 2 ^ 0 = rw none_made at (lookups-enough b) in absurd (omega arith)
  | inr some_lookup ↦ ground arith
]

or-bits : (s t : Bool) → bit (not (bit s == 0) || not (bit t == 0)) ≡ bit (s || t)
or-bits true t = refl
or-bits false true = refl
or-bits false false = refl

select-bit : (a b : ℕ) (s : Bool) → (if bit s == 0 then b else a) ≡ (if s then a else b)
select-bit a b true = refl
select-bit a b false = refl

pub toy_chip-IsChip : IsChip toy_chip
unfolding toy_chip
toy_chip-IsChip = record {
  p_large = omega arith;
  add_lem = λ a b l m. refl;
  sub_lem = λ a b l m. refl;
  mul_lem = λ a b l m. refl;
  select_lem = select-bit;
  is_equal_lem = λ a b. refl;
  or_lem = or-bits;
  pow_of_two_lem = λ i l. let e : 0 + i ≡ i = omega arith in rw e at (powers-lem 253 0 i l);
  assert_is_const_lem = λ a b. refl;
  constrain_equal_lem = λ a b. refl;
  range_check_lem = λ a bits l. refl;
  check_less_than_lem = λ a b bits l m k. refl;
  check_less_than_safe_lem = λ a b l. refl;
  safe_bits_lem = lookups-enough;
  is_less_than_safe_lem = λ a b l. refl;
  unsafe_lt_mask_lem = λ n len l. refl;
  uint_to_bytes_be_lem = λ x n. refl;
  keccak_hi = λ bs. refl;
  keccak_lo = λ bs. refl;
  length-keccak256 = λ bs. length-be_bytes 32 _;
  keccak256-AreBytes = λ bs. be_bytes-AreBytes 32 _;
}

-- An aggregator that returns the instances of its proofs and the accumulator [1, 2].
abbrev pub toy_aggregator : Aggregator
toy_aggregator = record {
  num_fe_accumulator = 2;
  aggregate_snarks = λ snarks. ok (map (λ (s : Snark). s.instances) snarks, 1 ∷ 2 ∷ []);
}
