-- ===== src/Tests/Circuits.antt =====
-- The theorems on the constraints of one circuit, at concrete inputs.
use worldcoin_aggregation.Prelude.{
  ℕ, ◌+◌, ◌-◌, ◌^◌, ◌≤◌, ◌<◌, ◌≡◌, refl, inr, List, [], ◌∷◌, ok, arith, All, length, index, slice,
}
use worldcoin_aggregation.Prelude.Words.{shl64, sub64}
use worldcoin_aggregation.Halo2.{HiLo}
use worldcoin_aggregation.Circuits.Shared.{
  check_and_join_shared_instances, constrain_equal_range, join_indices,
}
use worldcoin_aggregation.Circuits.Shared.Spec.{
  Header, instances_of, IsRange, Joined, join_sound, join_complete,
}
use worldcoin_aggregation.Circuits.Claims.{check_range}
use worldcoin_aggregation.Circuits.Claims.Verified.{check_range_sound}
use worldcoin_aggregation.Circuits.Merkle.{compute_keccak_merkle_tree, dummy_claim_roots}
use worldcoin_aggregation.Circuits.Merkle.Spec.{merkle_root}
use worldcoin_aggregation.Circuits.Merkle.Tree.{IsWord, compute_keccak_merkle_tree-root}
use worldcoin_aggregation.Circuits.Merkle.Dummy.{IsDummy, dummy_claim_roots-index}
use worldcoin_aggregation.Circuits.Snarks.{remove_old_accumulators}
use worldcoin_aggregation.Circuits.Snarks.Removal.{positions, remove_old_accumulators-pair}
use worldcoin_aggregation.Tests.Chips.{lookups, toy_chip, toy_chip-IsChip}

abbrev first_half : Header
first_half = record { start = 4; end = 6; vk_hash_hi = 8; vk_hash_lo = 9; root = 10 }

abbrev second_half : Header
second_half = record { start = 6; end = 7; vk_hash_hi = 8; vk_hash_lo = 9; root = 10 }

abbrev three_claims : List ℕ × ℕ
three_claims = (4 ∷ 7 ∷ 8 ∷ 9 ∷ 10 ∷ [], 0)

first_half-IsRange : IsRange 1 first_half
first_half-IsRange = record { nonempty = omega arith; word = omega arith; fits = omega arith }

second_half-IsRange : IsRange 1 second_half
second_half-IsRange = record { nonempty = omega arith; word = omega arith; fits = omega arith }

join_three :
    check_and_join_shared_instances toy_chip
      (instances_of first_half [])
      (instances_of second_half [])
      3
      2
      5
    ≡ ok three_claims
unfolding check_and_join_shared_instances constrain_equal_range join_indices toy_chip shl64 sub64
    slice lookups
join_three = refl

join_sound_example : Joined 1 3 first_half second_half three_claims
join_sound_example =
    join_sound toy_chip-IsChip (omega arith) first_half-IsRange second_half-IsRange [] [] 3 5
      {out = three_claims} join_three

safe_bits-three : 3 < 2 ^ toy_chip.safe_bits 3
unfolding toy_chip lookups
safe_bits-three = omega arith

join_complete_example :
    (out : List ℕ × ℕ) × (check_and_join_shared_instances toy_chip
        (instances_of first_half [])
        (instances_of second_half [])
        3
        2
        5
      ≡ ok out)
join_complete_example =
    join_complete toy_chip-IsChip (omega arith) first_half-IsRange second_half-IsRange [] [] 3 5
      refl refl safe_bits-three (record { same_hi = refl; same_lo = refl; same_root = refl })
      (inr (record { large = omega arith; linked = refl; full = refl; count = refl }))

abbrev three : ℕ
three = 3

range_of_three : check_range toy_chip 4 7 2 ≡ ok three
unfolding check_range toy_chip shl64
range_of_three = refl

check_range_sound_example : (4 < 7) × (7 < 2 ^ 64) × (7 ≤ 4 + 2 ^ 2) × (three ≡ 7 - 4)
check_range_sound_example = check_range_sound toy_chip-IsChip 4 7 2 (omega arith) range_of_three

abbrev four_hashes : List HiLo
four_hashes =
    record { hi = 1; lo = 2 }
    ∷ record { hi = 3; lo = 4 }
    ∷ record { hi = 5; lo = 6 }
    ∷ record { hi = 7; lo = 8 }
    ∷ []

small-IsWord : (a b : ℕ) → a < 256 → b < 256 → IsWord (record { hi = a; lo = b })
small-IsWord a b l m = record { hi_lt = omega arith; lo_lt = omega arith }

four_hashes-IsWord : All IsWord four_hashes
four_hashes-IsWord = (
  small-IsWord 1 2 (omega arith) (omega arith),
  (
    small-IsWord 3 4 (omega arith) (omega arith),
    (
      small-IsWord 5 6 (omega arith) (omega arith),
      (small-IsWord 7 8 (omega arith) (omega arith), tt),
    ),
  ),
)

compute_keccak_merkle_tree-root_example :
    (rest : List HiLo) × (compute_keccak_merkle_tree toy_chip four_hashes
      ≡ ok (merkle_root toy_chip 2 four_hashes ∷ rest))
    × (length rest + 2 ≡ 2 ^ 3)
compute_keccak_merkle_tree-root_example =
    compute_keccak_merkle_tree-root toy_chip-IsChip 2 four_hashes (omega arith) refl
      four_hashes-IsWord

dummy_claim_roots-index_example :
    (roots : List (List ℕ)) × (r : List ℕ) × (dummy_claim_roots toy_chip ≡ ok roots)
    × (index roots 5 ≡ ok r)
    × IsDummy toy_chip 5 r
dummy_claim_roots-index_example = dummy_claim_roots-index toy_chip-IsChip 5 (omega arith)

remove_old_accumulators-pair_example :
    remove_old_accumulators
      ((1 ∷ 2 ∷ 7 ∷ []) ∷ (3 ∷ 4 ∷ 8 ∷ 9 ∷ []) ∷ [])
      (positions 0 2 ∷ positions 0 2 ∷ [])
    ≡ ok ((7 ∷ []) ∷ (8 ∷ 9 ∷ []) ∷ [])
remove_old_accumulators-pair_example =
    remove_old_accumulators-pair 2 (1 ∷ 2 ∷ []) (3 ∷ 4 ∷ []) (7 ∷ []) (8 ∷ 9 ∷ []) refl refl
