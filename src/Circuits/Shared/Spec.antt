-- ===== src/Circuits/Shared/Spec.antt =====
-- What joining two proofs guarantees, over the numbers instead of the field.
use worldcoin_aggregation.Prelude.{
  ℕ, suc, ◌+◌, ◌-◌, ◌^◌, ◌≤◌, ◌<◌, ◌≡◌, ◌⊎◌, inl, inr, true, false, List, [], ◌∷◌, ok, arith,
  length, ltb, Bool-cases, Result-cases, slice,
}
use worldcoin_aggregation.Prelude.Words.{sub64, sub64-eq, shl64-eq, pow_mono, u64_mod}
use worldcoin_aggregation.Halo2.{Chip, IsChip}
use worldcoin_aggregation.Halo2.Laws.{
  sub-eq, is_less_than_safe-lt, is_less_than_safe-le, is_less_than_safe-ge, check_equal-off,
  check_equal-on,
}
use worldcoin_aggregation.Circuits.Shared.{
  constrain_equal_range, join_indices, check_and_join_shared_instances,
}

-- The instances that every circuit below the root begins with.
pub record Header : Type 0 where
  pub start : ℕ
  pub end : ℕ
  pub vk_hash_hi : ℕ
  pub vk_hash_lo : ℕ
  pub root : ℕ

abbrev pub instances_of : Header → List ℕ → List ℕ
instances_of h rest = h.start ∷ h.end ∷ h.vk_hash_hi ∷ h.vk_hash_lo ∷ h.root ∷ rest

-- A header that a circuit of depth `d` may show: a nonempty range of at most 2^d claims.
pub record IsRange (d : ℕ) (h : Header) : Type 0 where
  pub nonempty : h.start < h.end
  pub word : h.end < u64_mod
  pub fits : h.end ≤ h.start + 2 ^ d

pub record SameBatch (h0 h1 : Header) : Type 0 where
  pub same_hi : h0.vk_hash_hi ≡ h1.vk_hash_hi
  pub same_lo : h0.vk_hash_lo ≡ h1.vk_hash_lo
  pub same_root : h0.root ≡ h1.root

-- The second proof is a dummy: the first is kept.
pub record Alone (d n : ℕ) (h0 : Header) : Type 0 where
  pub small : n ≤ 2 ^ d
  pub count : h0.end ≡ h0.start + n

-- The first proof is full and the second continues it.
pub record Chained (d n : ℕ) (h0 h1 : Header) : Type 0 where
  pub large : 2 ^ d < n
  pub linked : h1.start ≡ h0.end
  pub full : h0.end ≡ h0.start + 2 ^ d
  pub count : h1.end ≡ h0.start + n

-- The new end and the dummy flag.
abbrev pub JoinedRange : ℕ → ℕ → Header → Header → ℕ × ℕ → Type 0
JoinedRange d n h0 h1 out =
    (Alone d n h0 × (out ≡ (h0.end, 1))) ⊎ (Chained d n h0 h1 × (out ≡ (h1.end, 0)))

-- The header of the joined proof.
abbrev pub extend : Header → ℕ → Header
extend h end = record h { end = end }

-- The instances and the flag that joining returns.
abbrev pub Joined : ℕ → ℕ → Header → Header → List ℕ × ℕ → Type 0
Joined d n h0 h1 out =
    SameBatch h0 h1
    × ((e : ℕ × ℕ) × JoinedRange d n h0 h1 e × (out ≡ (instances_of (extend h0 e.0) [], e.1)))

pub prev_depth-eq : (d : ℕ) → d < 63 → sub64 (suc d) 1 ≡ d
prev_depth-eq d h = omega (arith, sub64-eq (suc d) 1)

module _ {c : Chip} (chip : IsChip c) {d : ℕ} (small : d < 63) {h0 h1 : Header}
    (range0 : IsRange d h0) (range1 : IsRange d h1) where
  pow_small : 2 ^ d ≤ 2 ^ 62
  pow_small = pow_mono d 62 (omega arith)

  join_indices_sound :
      (n : ℕ) {out : ℕ × ℕ}
      → join_indices c h0.start h0.end h1.start h1.end n (suc d) ≡ ok out
      → JoinedRange d n h0 h1 out
  unfolding join_indices
  join_indices_sound n h = elim (Bool-cases (ltb n (2 ^ d + 1))) [
    | inl dummy ↦ ground (
      arith,
      pow_small,
      prev_depth-eq d small,
      shl64-eq d,
      sub-eq chip h0.end h0.start,
      chip.check_less_than_safe_lem (h0.end - h0.start) (2 ^ d + 1),
      is_less_than_safe-lt chip n (2 ^ d + 1),
      chip.select_lem h0.end h1.end true,
      chip.constrain_equal_lem (h0.end - h0.start) n,
    )
    | inr chained ↦ ground (
      arith,
      pow_small,
      prev_depth-eq d small,
      shl64-eq d,
      sub-eq chip h0.end h0.start,
      sub-eq chip h1.end h0.start,
      chip.check_less_than_safe_lem (h0.end - h0.start) (2 ^ d + 1),
      chip.check_less_than_safe_lem (h1.end - h1.start) (2 ^ d + 1),
      is_less_than_safe-le chip n (2 ^ d + 1),
      chip.select_lem h0.end h1.end false,
      check_equal-off chip h0.end h1.start,
      check_equal-off chip (h0.end - h0.start) (2 ^ d),
      chip.pow_of_two_lem d,
      chip.constrain_equal_lem (h1.end - h0.start) n,
    )
  ]

  -- Every pair of ranges that may be joined satisfies the constraints.
  join_indices_complete :
      (n : ℕ)
      → n < 2 ^ c.safe_bits (2 ^ d + 1)
      → Alone d n h0 ⊎ Chained d n h0 h1
      → (out : ℕ × ℕ) × (join_indices c h0.start h0.end h1.start h1.end n (suc d) ≡ ok out)
  unfolding join_indices
  join_indices_complete n w (inl alone) = (
    (h0.end, 1),
    ground (
      arith,
      pow_small,
      prev_depth-eq d small,
      shl64-eq d,
      sub-eq chip h0.end h0.start,
      sub-eq chip h1.end h1.start,
      chip.check_less_than_safe_lem (h0.end - h0.start) (2 ^ d + 1),
      chip.check_less_than_safe_lem (h1.end - h1.start) (2 ^ d + 1),
      is_less_than_safe-lt chip n (2 ^ d + 1),
      chip.select_lem h0.end h1.end true,
      check_equal-on chip h0.end h1.start,
      check_equal-on chip (h0.end - h0.start) (2 ^ d),
      chip.pow_of_two_lem d,
      chip.constrain_equal_lem (h0.end - h0.start) n,
    ),
  )
  join_indices_complete n w (inr chained) = (
    (h1.end, 0),
    ground (
      arith,
      pow_small,
      prev_depth-eq d small,
      shl64-eq d,
      sub-eq chip h0.end h0.start,
      sub-eq chip h1.end h1.start,
      sub-eq chip h1.end h0.start,
      chip.check_less_than_safe_lem (h0.end - h0.start) (2 ^ d + 1),
      chip.check_less_than_safe_lem (h1.end - h1.start) (2 ^ d + 1),
      is_less_than_safe-ge chip n (2 ^ d + 1),
      chip.select_lem h0.end h1.end false,
      check_equal-off chip h0.end h1.start,
      check_equal-off chip (h0.end - h0.start) (2 ^ d),
      chip.pow_of_two_lem d,
      chip.constrain_equal_lem (h1.end - h0.start) n,
    ),
  )

  -- Of two headers with ranges of depth d, for d below 63: if the constraints that join them hold
  -- for n proofs, the headers have the same key hash and root, and either n is at most 2^d, the
  -- first range has n claims and is kept, or n is larger, the first range is full, the second
  -- begins where it ends, and the two together have n claims.
  pub join_sound :
      (r0 r1 : List ℕ) (n k : ℕ) {out : List ℕ × ℕ}
      → check_and_join_shared_instances c (instances_of h0 r0) (instances_of h1 r1) n (suc d) k
        ≡ ok out
      → Joined d n h0 h1 out
  unfolding check_and_join_shared_instances constrain_equal_range slice
  join_sound r0 r1 n k {out} h =
      elim (Result-cases (join_indices c h0.start h0.end h1.start h1.end n (suc d))) [
        | inl (e, indices) ↦
            let facts : SameBatch h0 h1 × (out ≡ (instances_of (extend h0 e.0) [], e.1)) = ground (
              arith,
              chip.constrain_equal_lem h0.vk_hash_hi h1.vk_hash_hi,
              chip.constrain_equal_lem h0.vk_hash_lo h1.vk_hash_lo,
              chip.constrain_equal_lem h0.root h1.root,
            ) in
            (facts.0, (e, join_indices_sound n indices, facts.1))
        | inr (e, failed) ↦ absurd (ground arith)
      ]

  -- Of two headers with ranges of depth d, for d below 63, that agree on the key hash and the
  -- root: if n fits the bits that the comparison checks, and either n is at most 2^d and the
  -- first range has n claims, or it is larger, the first range is full, the second continues it
  -- and they have n claims together, then the constraints that join them hold.
  pub join_complete :
      (r0 r1 : List ℕ) (n k : ℕ)
      → k ≡ length (instances_of h0 r0)
      → k ≡ length (instances_of h1 r1)
      → n < 2 ^ c.safe_bits (2 ^ d + 1)
      → SameBatch h0 h1
      → Alone d n h0 ⊎ Chained d n h0 h1
      → (out : List ℕ × ℕ) × (check_and_join_shared_instances c
            (instances_of h0 r0)
            (instances_of h1 r1)
            n
            (suc d)
            k
          ≡ ok out)
  unfolding check_and_join_shared_instances constrain_equal_range slice
  join_complete r0 r1 n k len0 len1 w same parts =
      let (e, indices) = join_indices_complete n w parts in
      (
        (instances_of (extend h0 e.0) [], e.1),
        ground (
          arith,
          indices,
          chip.constrain_equal_lem h0.vk_hash_hi h1.vk_hash_hi,
          chip.constrain_equal_lem h0.vk_hash_lo h1.vk_hash_lo,
          chip.constrain_equal_lem h0.root h1.root,
        ),
      )
