-- ===== src/System/Proved.antt =====
-- The induction over the tree: every valid batch of good claims is proved, and what the proof shows is
-- what the circuits promise (TreeProver) for the range and the claims of the request.
use mathlib.Core.Path.{subst}
use worldcoin_aggregation.Prelude.{
  ℕ, zero, suc, ◌-◌, ◌≤◌, ◌<◌, ◌≡◌, refl, sym, Option, Result, ok, arith, All,
}
use worldcoin_aggregation.Circuits.Snarks.{Snark}
use worldcoin_aggregation.Scheduler.NodeParams.{NodeType, NodeParams}
use worldcoin_aggregation.Scheduler.NodeParams.Children.{IsPlaced, IsInner, IsJoining}
use worldcoin_aggregation.Scheduler.NodeParams.Chain.{Below}
use worldcoin_aggregation.Scheduler.Request.{RecursiveRequest}
use worldcoin_aggregation.Scheduler.Request.Splits.{IsValid}
use worldcoin_aggregation.Scheduler.Local.{ProverProof, WorldcoinRequestEvm}
use worldcoin_aggregation.System.Tree.{TreeProver}
use worldcoin_aggregation.System.Calls.{gen}
use worldcoin_aggregation.System.Nodes.{Knows, IsBatch, Proves, leaf-Proves, ready, node-gen}

-- An inner node above the leaves is intermediate.
inner_above :
    (t : NodeType) (d i : ℕ) → IsInner t → IsPlaced t d i → i < d → t ≡ NodeType.intermediate
inner_above NodeType.leaf d i inner placed above = absurd (omega arith)
inner_above NodeType.intermediate d i inner placed above = refl
inner_above NodeType.root d i inner placed above = absurd inner
inner_above (NodeType.evm round) d i inner placed above = absurd inner

module _ {Root Claim CircuitId EvmProof : Type 0} (p : TreeProver Root Claim)
    (circuit_id_repo : NodeParams → Option CircuitId)
    (get_evm_proof : CircuitId → WorldcoinRequestEvm → Result EvmProof) {top : NodeParams}
    (knows : Knows circuit_id_repo top) where
  gen-Proves :
      (i k fuel : ℕ) (req : RecursiveRequest Root Claim)
      → IsBatch p i k req
      → IsInner req.params.node_type
      → Below top req.params
      → k < fuel
      → Proves p circuit_id_repo get_evm_proof knows i k fuel req
  gen-Proves i k zero req batch inner down l = elim l [ ]
  gen-Proves i zero (suc fuel) req batch inner down l =
      leaf-Proves p circuit_id_repo get_evm_proof knows i fuel req batch down
  gen-Proves i (suc k) (suc fuel) req batch inner down l =
      let v = batch.valid in
      let type =
        inner_above req.params.node_type req.params.depth req.params.initial_depth inner v.placed
          (omega (arith, batch.deep, batch.leaves)) in
      let r =
        ready p circuit_id_repo get_evm_proof knows i k fuel req batch
          (subst IsJoining (sym type) tt) down
          (λ dep b is down'. gen-Proves i k fuel dep b is down' (omega arith)) in
      let (out, proved, shown) =
        p.node_shows i k req.start req.end req.claims r.proofs.x r.proofs.y v.nonempty
          (omega (arith, v.fits, v.word)) (omega (arith, batch.low)) batch.good r.proofs.halves in
      let (id, made) =
        node-gen p circuit_id_repo get_evm_proof knows i k fuel req NodeType.intermediate batch type
          tt down r proved in
      (out, id, made, shown)

  -- For any prover with the laws of TreeProver, which say that a leaf, a node over two proofs and
  -- the root over two proofs are proved for good claims up to a maximal depth, and what their
  -- proofs show: if the table has the circuits of the nodes from top down, a valid request at a
  -- root node from top down, at most as deep, with the prover's root and with good claims, is
  -- answered by the local scheduler, with fuel above the levels of the tree, with a snark that
  -- shows the range and the claims of the whole request as a root does.
  pub gen-RootShows :
      (fuel : ℕ) (req : RecursiveRequest Root Claim)
      → IsValid req
      → req.params.node_type ≡ NodeType.root
      → Below top req.params
      → req.params.depth ≤ p.max_depth
      → req.root ≡ p.root_text
      → All p.IsGood req.claims
      → req.params.depth - req.params.initial_depth < fuel
      → (sn : Snark) × (id : CircuitId) × (gen p.prove circuit_id_repo get_evm_proof fuel req
          ≡ ok (ProverProof.snark id sn))
        × p.RootShows req.params.initial_depth
            (req.params.depth - req.params.initial_depth)
            req.start
            req.end
            req.claims
            sn
  gen-RootShows zero req v type down low same good l = elim l [ ]
  gen-RootShows (suc fuel) req v type down low same good l =
      let i = req.params.initial_depth in
      let k = req.params.depth - i - 1 in
      let above : i < req.params.depth =
        subst (λ ty. IsPlaced ty req.params.depth i) type v.placed in
      let levels : req.params.depth - i ≡ suc k = omega arith in
      let batch : IsBatch p i (suc k) req = record {
        valid = v;
        leaves = refl;
        deep = omega arith;
        low = omega arith;
        same_root = same;
        good = good;
      } in
      let r =
        ready p circuit_id_repo get_evm_proof knows i k fuel req batch
          (subst IsJoining (sym type) tt) down
          (λ dep b is down'. gen-Proves i k fuel dep b is down' (omega arith)) in
      let (out, proved, shown) =
        p.root_shows i k req.start req.end req.claims r.proofs.x r.proofs.y v.nonempty
          (omega (arith, v.fits, v.word)) (omega arith) good r.proofs.halves in
      let (id, made) =
        node-gen p circuit_id_repo get_evm_proof knows i k fuel req NodeType.root batch type tt down
          r proved in
      (
        out,
        id,
        made,
        subst (λ n. p.RootShows i n req.start req.end req.claims out) (sym levels) shown,
      )
