-- ===== src/Circuits/V2/Roots.antt =====
-- Joining the claim roots of two V2 proofs.
use worldcoin_aggregation.Prelude.{
  ℕ, suc, ◌-◌, ◌≤◌, ◌≡◌, sym, ap, ◌∙◌, Bool, List, [], ◌∷◌, ok, arith, length, take, drop, take_all,
  length-drop, slice, slice-eq, bit, if◌then◌else◌, true, false, ok-injective, >>=-eq-ok,
}
use worldcoin_aggregation.Halo2.{Chip, IsChip, HiLo}
use worldcoin_aggregation.Circuits.Utils.Bytes.{bytes_of_sound}
use worldcoin_aggregation.Circuits.Shared.Spec.{Header, instances_of, prev_depth-eq}
use worldcoin_aggregation.Circuits.Merkle.{compute_keccak_for_branch_nodes, max_dummy_depth}
use worldcoin_aggregation.Circuits.Merkle.Spec.{branch_hash}
use worldcoin_aggregation.Circuits.Merkle.Dummy.{dummy_root, word_of, dummy_claim_roots-index}
use worldcoin_aggregation.Circuits.V2.Intermediate.{join_claim_roots}

abbrev pub hi_lo : HiLo → List ℕ
hi_lo r = r.hi ∷ r.lo ∷ []

module _ {c : Chip} (chip : IsChip c) where
  branch_nodes_sound :
      (l r : HiLo) {h : HiLo} → compute_keccak_for_branch_nodes c l r ≡ ok h → h ≡ branch_hash c l r
  unfolding compute_keccak_for_branch_nodes branch_hash
  branch_nodes_sound l r h =
      let (bytes, spelled, last) = >>=-eq-ok _ _ h in
      sym (ok-injective last) ∙ ap c.keccak_fixed_len (bytes_of_sound chip 16 _ spelled)

  pub slice-halves :
      (bs : List ℕ)
      → length bs ≡ 32
      → (slice bs 0 16 ≡ ok (take 16 bs)) × (slice bs 16 (length bs) ≡ ok (drop 16 bs))
  slice-halves bs long = (
    slice-eq bs 0 16 (omega arith) (omega arith),
    slice-eq bs 16 (length bs) (omega arith) (omega arith)
        ∙ ap ok (take_all (length bs - 16) (drop 16 bs) (omega (arith, length-drop 16 bs))),
  )

  pub select-HiLo :
      (a b : HiLo) (s : Bool)
      → record { hi = c.select a.hi b.hi (bit s); lo = c.select a.lo b.lo (bit s) }
        ≡ (if s then a else b)
  select-HiLo a b true = rw (chip.select_lem a.hi b.hi true, chip.select_lem a.lo b.lo true)
  select-HiLo a b false = rw (chip.select_lem a.hi b.hi false, chip.select_lem a.lo b.lo false)

  -- The new claim root hashes the first one and the second, or that of empty claims in its place.
  pub join_claim_roots_sound :
      (d : ℕ) (h0 h1 : Header) (r0 r1 : HiLo) (dummy : Bool) {out : List ℕ}
      → d ≤ max_dummy_depth
      → join_claim_roots c
          (instances_of h0 (hi_lo r0))
          (instances_of h1 (hi_lo r1))
          (bit dummy)
          (suc d)
        ≡ ok out
      → out ≡ hi_lo (branch_hash c r0 (if dummy then dummy_root c d else r1))
  unfolding join_claim_roots
  join_claim_roots_sound d h0 h1 r0 r1 dummy l h =
      let (roots, bs, computed, at, is) = dummy_claim_roots-index chip d l in
      let (hi_half, lo_half) = slice-halves bs is.long in
      let (root, hashed, last) =
        >>=-eq-ok
          (compute_keccak_for_branch_nodes c r0 (record {
            hi = c.select (word_of bs).hi r1.hi (bit dummy);
            lo = c.select (word_of bs).lo r1.lo (bit dummy);
          }))
          _ (rw (computed, prev_depth-eq d (omega arith), at, hi_half, lo_half) at h) in
      sym (ok-injective last)
      ∙ ap hi_lo (branch_nodes_sound r0 _ hashed ∙ rw (select-HiLo (word_of bs) r1 dummy, is.root))
