-- ===== src/Keygen/Circuits.antt =====
-- The circuits for which circuit/src/keygen/mod.rs makes keys, up to their inputs: the snarks below are
-- dummies of the library, the number of proofs is the largest, or one for the root.
use worldcoin_aggregation.Prelude.{
  ℕ, ◌≤◌, ◌<◌, ◌≡◌, sym, ◌∙◌, true, false, List, Result, ok, err, bail, panic, unsat, Reason, arith,
  assert, assert-eq-ok, ok-injective, length, ltb, leb, ◌==◌, ◌>>◌,
}
use worldcoin_aggregation.Prelude.Words.{shl32, shl32-eq, sub32, pow_mono}
use worldcoin_aggregation.Circuits.Snarks.{Snark, Aggregator}
use worldcoin_aggregation.Circuits.V1.Intermediate.{WorldcoinIntermediateAggregationInput}
use worldcoin_aggregation.Circuits.V1.Intermediate as V1Intermediate
use worldcoin_aggregation.Circuits.V1.Root.{WorldcoinRootAggregationInput}
use worldcoin_aggregation.Circuits.V1.Root as V1Root
use worldcoin_aggregation.Circuits.V2.Intermediate.{WorldcoinIntermediateAggregationInputV2}
use worldcoin_aggregation.Circuits.V2.Intermediate as V2Intermediate
use worldcoin_aggregation.Circuits.V2.Root.{WorldcoinRootAggregationInputV2}
use worldcoin_aggregation.Circuits.V2.Root as V2Root
use worldcoin_aggregation.Scheduler.Local.{WorldcoinRequestNode}
use worldcoin_aggregation.Scheduler.Factory.{build_intermediate}
use worldcoin_aggregation.Keygen.{IntentNode}

-- `unwrap` of the input.
abbrev pub unwrap_input : {A : Type 0} → Result A → Result A
unwrap_input (ok a) = ok a
unwrap_input (err (bail r)) = err (panic Reason.unwrap_none)
unwrap_input (err (panic r)) = err (panic r)
unwrap_input (err unsat) = err unsat

module _ {CircuitId Vk : Type 0} where
  -- `build_keygen_circuit_from_snarks` of IntentIntermediate, in V1 and in V2.
  unfoldable pub keygen_intermediate :
      IntentNode CircuitId Vk → List Snark → Result WorldcoinIntermediateAggregationInput
  keygen_intermediate intent snarks = do
    assert (length snarks == 2)
    V1Intermediate.new snarks (shl32 intent.depth) intent.depth intent.initial_depth

  unfoldable pub keygen_intermediate_v2 :
      Aggregator
      → IntentNode CircuitId Vk
      → List Snark
      → Result WorldcoinIntermediateAggregationInputV2
  keygen_intermediate_v2 a intent snarks = do
    assert (length snarks == 2)
    unwrap_input
        (V2Intermediate.new a snarks (shl32 intent.depth) intent.depth intent.initial_depth)

  -- `build_keygen_circuit_from_snarks` of IntentRoot, in V1 and in V2.
  unfoldable pub keygen_root :
      Aggregator → IntentNode CircuitId Vk → List Snark → Result WorldcoinRootAggregationInput
  keygen_root a intent snarks = do
    assert (length snarks == 2)
    unwrap_input (V1Root.new a snarks 1 intent.depth intent.initial_depth)

  unfoldable pub keygen_root_v2 :
      Aggregator → IntentNode CircuitId Vk → List Snark → Result WorldcoinRootAggregationInputV2
  keygen_root_v2 a intent snarks = do
    assert (length snarks == 2)
    unwrap_input (V2Root.new a snarks 1 intent.depth intent.initial_depth)

-- The inputs of two circuits of the same shape, the first with room for the second.
pub record HasRoom (keygen proving : WorldcoinIntermediateAggregationInput) : Type 0 where
  pub same_depth : proving.max_depth ≡ keygen.max_depth
  pub same_initial_depth : proving.initial_depth ≡ keygen.initial_depth
  pub same_number : length proving.snarks ≡ length keygen.snarks
  pub room : proving.num_proofs ≤ keygen.num_proofs

new-eq-ok :
    (snarks : List Snark) (num_proofs max_depth initial_depth : ℕ)
    {input : WorldcoinIntermediateAggregationInput}
    → V1Intermediate.new snarks num_proofs max_depth initial_depth ≡ ok input
    → (length snarks ≡ 2)
      × (initial_depth < max_depth)
      × (num_proofs ≤ shl32 max_depth)
      × (input ≡ record {
        num_proofs = num_proofs;
        snarks = snarks;
        max_depth = max_depth;
        initial_depth = initial_depth;
      })
unfolding V1Intermediate.new
new-eq-ok snarks num_proofs max_depth initial_depth e =
    let (some_proof, e1) = assert-eq-ok _ _ e in
    let (two, e2) = assert-eq-ok (length snarks == 2) _ e1 in
    let (deep, e3) = assert-eq-ok (ltb initial_depth max_depth) _ e2 in
    let (few, e4) = assert-eq-ok (leb num_proofs (shl32 max_depth)) _ e3 in
    (ground arith, ground arith, ground arith, sym (ok-injective e4))

-- If the V1 intermediate factory builds an input of a request, with the depth, below 32, and the
-- initial depth of an intent, then from any two dummy snarks the keys of the intent are made for
-- an input of the same depths and number of snarks, with room for at least as many proofs.
pub keygen_intermediate-HasRoom :
    {CircuitId Vk : Type 0} (intent : IntentNode CircuitId Vk) (request : WorldcoinRequestNode)
    (dummies : List Snark) (proving : WorldcoinIntermediateAggregationInput)
    → request.depth ≡ intent.depth
    → request.initial_depth ≡ intent.initial_depth
    → intent.depth < 32
    → length dummies ≡ 2
    → build_intermediate request ≡ ok proving
    → (keygen : WorldcoinIntermediateAggregationInput) × (keygen_intermediate intent dummies
        ≡ ok keygen)
      × HasRoom keygen proving
unfolding keygen_intermediate build_intermediate V1Intermediate.new
keygen_intermediate-HasRoom intent request dummies proving d i small two built =
    let (number, deep, few, shape) =
      new-eq-ok request.snarks (sub32 request.end request.start) request.depth request.initial_depth
        built in
    let width = shl32-eq intent.depth small in
    let low = pow_mono 0 intent.depth (omega arith) in
    let is_two : (length dummies == 2) ≡ true = ground arith in
    let some_proof : (shl32 intent.depth == 0) ≡ false = rw width (ground arith) in
    let above : ltb intent.initial_depth intent.depth ≡ true = ground arith in
    let fits : leb (shl32 intent.depth) (shl32 intent.depth) ≡ true = ground arith in
    (
      record {
        num_proofs = shl32 intent.depth;
        snarks = dummies;
        max_depth = intent.depth;
        initial_depth = intent.initial_depth;
      },
      rw (is_two, some_proof, above, fits),
      rw shape (record {
        same_depth = d;
        same_initial_depth = i;
        same_number = number ∙ sym two;
        room = rw (← d) few;
      }),
    )
