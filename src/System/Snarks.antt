-- ===== src/System/Snarks.antt =====
-- The snarks of the tree: an accumulator, except in a leaf, and what the circuit shows.
use worldcoin_aggregation.Prelude.{
  ℕ, zero, suc, ◌+◌, ◌<◌, ◌≡◌, refl, ap, true, false, List, [], ◌∷◌, ◌++◌, Result, ok, arith,
  length, ltb, ◌==◌,
}
use worldcoin_aggregation.Prelude.Words.{word64, word64-eq}
use worldcoin_aggregation.Circuits.Snarks.{
  Snark, Aggregator, any, check_accumulators, remove_old_accumulators,
}
use worldcoin_aggregation.Circuits.Snarks.Removal.{positions, remove_old_accumulators-pair}
use worldcoin_aggregation.Scheduler.Local.{RequestRouter, WorldcoinRequestNode}

-- The size of the accumulator of a proof that is `k` levels above the leaves.
abbrev pub acc_size : Aggregator → ℕ → ℕ
acc_size a zero = 0
acc_size a (suc k) = a.num_fe_accumulator

-- A leaf has no accumulator.
pub positions-none : [] ≡ positions 0 0
unfolding positions
positions-none = refl

length-positions : (i n : ℕ) → length (positions i n) ≡ n
unfolding positions
length-positions i zero = refl
length-positions i (suc n) = ap suc (length-positions (suc i) n)

-- The accumulators of two proofs of the same depth are as they must be.
check_accumulators-eq :
    (a : Aggregator) (i k : ℕ)
    → i + k < 62
    → check_accumulators a
        (positions 0 (acc_size a k) ∷ positions 0 (acc_size a k) ∷ [])
        (suc (i + k))
        i
      ≡ ok tt
unfolding check_accumulators any positions
check_accumulators-eq a i zero small =
    let e : i + 0 ≡ i = omega arith in
    let w : word64 (suc i) ≡ suc i = word64-eq (suc i) (omega arith) in
    let no : ltb (suc i) (suc i) ≡ false = ground arith in
    let same : (suc i == suc i) ≡ true = ground arith in rw (e, w, no, same)
check_accumulators-eq a i (suc k) small =
    let w : word64 (suc i) ≡ suc i = word64-eq (suc i) (omega arith) in
    let no : (suc (i + suc k) == suc i) ≡ false = ground arith in
    let whole : (length (positions 0 a.num_fe_accumulator) == a.num_fe_accumulator) ≡ true =
      ground (arith, length-positions 0 a.num_fe_accumulator) in
    let above : ltb (suc i) (suc (i + suc k)) ≡ true = ground arith in rw (w, no, whole, above)

-- The request for a node above two proofs.
abbrev pub node_of : ℕ → ℕ → ℕ → ℕ → Snark → Snark → WorldcoinRequestNode
node_of start end depth initial_depth x y = record {
  start = start;
  end = end;
  depth = depth;
  initial_depth = initial_depth;
  snarks = x ∷ y ∷ [];
}

-- A proof of the prover, `k` levels above the leaves, that shows some instances behind its
-- accumulator.
pub record Shown {Root Claim : Type 0} (prove : RequestRouter Root Claim → Result Snark)
    (a : Aggregator) (k : ℕ) (shown : List ℕ) (snark : Snark) : Type 0 where
  pub request : RequestRouter Root Claim
  pub proved : prove request ≡ ok snark
  pub acc : List ℕ
  pub size : length acc ≡ acc_size a k
  pub indices : snark.accumulator_indices ≡ positions 0 (acc_size a k)
  pub instances : snark.instances ≡ acc ++ shown

module _ {Root Claim : Type 0} (prove : RequestRouter Root Claim → Result Snark) (a : Aggregator)
    (k : ℕ) {is js : List ℕ} {x y : Snark} (first : Shown prove a k is x)
    (second : Shown prove a k js y) where
  -- The instances of two such proofs, without their accumulators.
  pub cleaned :
      remove_old_accumulators
        (x.instances ∷ y.instances ∷ [])
        (x.accumulator_indices ∷ y.accumulator_indices ∷ [])
      ≡ ok (is ∷ js ∷ [])
  cleaned =
      rw (first.instances, second.instances, first.indices, second.indices)
        (remove_old_accumulators-pair (acc_size a k) first.acc second.acc is js first.size
          second.size)

  pub checked :
      (i : ℕ)
      → i + k < 62
      → check_accumulators a (x.accumulator_indices ∷ y.accumulator_indices ∷ []) (suc (i + k)) i
        ≡ ok tt
  checked i small = rw (first.indices, second.indices) (check_accumulators-eq a i k small)
