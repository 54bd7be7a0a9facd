-- ===== src/Circuits/V1/Batch.antt =====
-- Every proof of the V1 aggregation tree shows a range and a list of verified claims.
use mathlib.Core.List.{append-nil, append_assoc, map-append}
use worldcoin_aggregation.Prelude.{
  ℕ, suc, ◌+◌, ◌*◌, ◌^◌, ◌≤◌, ◌<◌, ◌≡◌, refl, sym, ap, ◌∙◌, List, [], ◌∷◌, ◌++◌, map, ok, arith,
  All, slice, slice-append, length, length-append, ok-injective, ◌>>=◌, >>=-eq-ok,
}
use worldcoin_aggregation.Prelude.Words.{sub64, shl64, word64, word64-eq, shl64-eq, pow_mono}
use worldcoin_aggregation.Halo2.{Chip, IsChip, HiLo}
use worldcoin_aggregation.Circuits.Shared.{check_and_join_shared_instances}
use worldcoin_aggregation.Circuits.Shared.Spec.{
  Header, instances_of, extend, IsRange, SameBatch, JoinedRange, Joined, join_sound, prev_depth-eq,
}
use worldcoin_aggregation.Circuits.Claims.{ClaimInput, grant_ids, receivers, nullifier_hashes}
use worldcoin_aggregation.Circuits.Claims.Verified.{Verified}
use worldcoin_aggregation.Circuits.V1.Intermediate.{get_num_instance, join_previous_instances}

abbrev pub vk_hash : Header → HiLo
vk_hash h = record { hi = h.vk_hash_hi; lo = h.vk_hash_lo }

abbrev pub columns : List ClaimInput → List ℕ
columns claims = grant_ids claims ++ (receivers claims ++ nullifier_hashes claims)

-- The public instances of a V1 circuit of depth `d`.
pub record Batch (c : Chip) (d : ℕ) (instances : List ℕ) : Type 0 where
  pub header : Header
  pub claims : List ClaimInput
  pub range : IsRange d header
  pub filled : length claims ≡ 2 ^ d
  pub verified : All (Verified c (vk_hash header) header.root) claims
  pub shown : instances ≡ instances_of header (columns claims)

-- The columns of two lists, interleaved as `join_previous_instances` writes them.
columns-append :
    (xs ys : List ClaimInput)
    → grant_ids xs
        ++ (grant_ids ys
            ++ (receivers xs ++ (receivers ys ++ (nullifier_hashes xs ++ nullifier_hashes ys))))
      ≡ columns (xs ++ ys)
columns-append xs ys = simp (map-append, append_assoc)

pub length-column : (f : ClaimInput → ℕ) (xs : List ClaimInput) → length (map f xs) ≡ length xs
length-column f [] = refl
length-column f (x ∷ xs) = ap suc (length-column f xs)

-- The three slices of the instances of a batch.
module _ (h : Header) (xs : List ClaimInput) (m : ℕ) (filled : length xs ≡ m) where
  slice-grant_ids : slice (instances_of h (columns xs)) 5 (5 + m) ≡ ok (grant_ids xs)
  slice-grant_ids =
      let len : length (grant_ids xs) ≡ m = length-column _ xs ∙ filled in
      slice-append (instances_of h []) (grant_ids xs) (receivers xs ++ nullifier_hashes xs) 5
        (5 + m) refl (omega arith)

  slice-receivers : slice (instances_of h (columns xs)) (5 + m) (5 + 2 * m) ≡ ok (receivers xs)
  slice-receivers =
      let len : length (grant_ids xs) ≡ m = length-column _ xs ∙ filled in
      let len' : length (receivers xs) ≡ m = length-column _ xs ∙ filled in
      slice-append (instances_of h (grant_ids xs)) (receivers xs) (nullifier_hashes xs) (5 + m)
        (5 + 2 * m) (omega arith) (omega arith)

  slice-nullifier_hashes :
      slice (instances_of h (columns xs)) (5 + 2 * m) (5 + 3 * m) ≡ ok (nullifier_hashes xs)
  slice-nullifier_hashes =
      let len : length (grant_ids xs) ≡ m = length-column _ xs ∙ filled in
      let len' : length (receivers xs) ≡ m = length-column _ xs ∙ filled in
      let len'' : length (nullifier_hashes xs) ≡ m = length-column _ xs ∙ filled in
      let both : length (grant_ids xs ++ receivers xs) ≡ 2 * m =
        length-append (grant_ids xs) (receivers xs) ∙ omega arith in
      let regroup : columns xs ≡ (grant_ids xs ++ receivers xs) ++ (nullifier_hashes xs ++ []) =
        simp (append-nil, append_assoc) in
      rw regroup (
        slice-append (instances_of h (grant_ids xs ++ receivers xs)) (nullifier_hashes xs) []
          (5 + 2 * m) (5 + 3 * m) (omega arith) (omega arith))

module _ (h h1 : Header) (xs ys : List ClaimInput) (m d : ℕ) (small : d < 60) (e : m ≡ 2 ^ d) where
  slices :
      (shl64 (sub64 (suc d) 1) ≡ m)
      × (word64 (5 + m) ≡ 5 + m)
      × (word64 (5 + 2 * m) ≡ 5 + 2 * m)
      × (word64 (5 + 3 * m) ≡ 5 + 3 * m)
  slices =
      let pow : 2 ^ d ≤ 2 ^ 60 = pow_mono d 60 (omega arith) in
      (
        rw (prev_depth-eq d (omega arith)) (shl64-eq d (omega arith) ∙ sym e),
        word64-eq (5 + m) (omega arith),
        word64-eq (5 + 2 * m) (omega arith),
        word64-eq (5 + 3 * m) (omega arith),
      )

  -- On two batches the slices are the columns of the claims.
  pub join_previous_instances-eq :
      (c : Chip) (n : ℕ)
      → length xs ≡ m
      → length ys ≡ m
      → join_previous_instances c
          (instances_of h (columns xs))
          (instances_of h1 (columns ys))
          n
          (suc d)
        ≡ (check_and_join_shared_instances c
              (instances_of h (columns xs))
              (instances_of h1 (columns ys))
              n
              (suc d)
              (5 + 3 * m)
            >>= λ joined. ok (joined.0 ++ columns (xs ++ ys)))
  unfolding join_previous_instances get_num_instance
  join_previous_instances-eq c n filled0 filled1 =
      let (shift, a1, a2, a3) = slices in
      simp (
        shift,
        a1,
        a2,
        a3,
        slice-grant_ids h xs m filled0,
        slice-receivers h xs m filled0,
        slice-nullifier_hashes h xs m filled0,
        slice-grant_ids h1 ys m filled1,
        slice-receivers h1 ys m filled1,
        slice-nullifier_hashes h1 ys m filled1,
        columns-append,
      )

abbrev pub JoinedBatch : ℕ → ℕ → Header → Header → List ℕ → List ℕ → Type 0
JoinedBatch d n h0 h1 rest out =
    SameBatch h0 h1
    × ((e : ℕ × ℕ) × JoinedRange d n h0 h1 e × (out ≡ instances_of (extend h0 e.0) rest))

Joined-append :
    {d n : ℕ} {h0 h1 : Header} {joined : List ℕ × ℕ} (rest : List ℕ) {out : List ℕ}
    → Joined d n h0 h1 joined
    → ok (joined.0 ++ rest) ≡ ok out
    → JoinedBatch d n h0 h1 rest out
Joined-append rest {out} (same, (e, parts, shown)) eq =
    (same, (e, parts, sym (ok-injective eq) ∙ ap (λ (t : List ℕ × ℕ). t.0 ++ rest) shown))

module _ {c : Chip} (chip : IsChip c) {d : ℕ} (small : d < 60) where
  -- Joining the instances of two batches gives those of the batch of all their claims.
  pub join_previous_instances_sound :
      (h0 h1 : Header) (xs ys : List ClaimInput) (n : ℕ) {out : List ℕ}
      → IsRange d h0
      → IsRange d h1
      → length xs ≡ 2 ^ d
      → length ys ≡ 2 ^ d
      → join_previous_instances c
          (instances_of h0 (columns xs))
          (instances_of h1 (columns ys))
          n
          (suc d)
        ≡ ok out
      → JoinedBatch d n h0 h1 (columns (xs ++ ys)) out
  join_previous_instances_sound h0 h1 xs ys n {out} range0 range1 len0 len1 h =
      let eq = join_previous_instances-eq h0 h1 xs ys (2 ^ d) d small refl c n len0 len1 in
      let (joined, ok_joined, rest) = >>=-eq-ok _ _ (sym eq ∙ h) in
      Joined-append (columns (xs ++ ys))
        (join_sound chip (omega arith) range0 range1 (columns xs) (columns ys) n _ ok_joined) rest
