-- ===== src/System/Runs.antt =====
-- The asynchronous scheduler, with an executor that returns the proofs of a prover of the tree.
use worldcoin_aggregation.Prelude.{
  suc, ◌+◌, ◌-◌, ◌≤◌, ◌≡◌, sym, ◌∙◌, false, Option, List, Result, ok, arith, All, ok-injective,
}
use worldcoin_aggregation.Circuits.Snarks.{Snark}
use worldcoin_aggregation.Scheduler.NodeParams.{NodeType, NodeParams}
use worldcoin_aggregation.Scheduler.NodeParams.Chain.{Below}
use worldcoin_aggregation.Scheduler.Request.{RecursiveRequest}
use worldcoin_aggregation.Scheduler.Request.Splits.{IsValid}
use worldcoin_aggregation.Scheduler.Local.{ProverProof, WorldcoinRequestEvm}
use worldcoin_aggregation.Scheduler.Async.{AsyncScheduler, Run}
use worldcoin_aggregation.Scheduler.Async.Refines.{Agrees, Run-Returns}
use worldcoin_aggregation.System.{scheduler}
use worldcoin_aggregation.System.Tree.{TreeProver}
use worldcoin_aggregation.System.Nodes.{Knows}
use worldcoin_aggregation.System.Proved.{gen-RootShows}

module _ {Root Claim CircuitId EvmProof TaskId : Type 0} (p : TreeProver Root Claim)
    (circuit_id_repo : NodeParams → Option CircuitId)
    (get_evm_proof : CircuitId → WorldcoinRequestEvm → Result EvmProof) {top : NodeParams}
    (knows : Knows circuit_id_repo top) where
  -- For any prover with the laws of TreeProver, and an asynchronous scheduler with the table of
  -- circuit ids, whose executor returns the proofs of this prover: under the conditions of the
  -- local scheduler on the table and on the request, every run that ends with a proof, in
  -- whatever order its tasks are done, ends with a snark that shows the range and the claims of
  -- the whole request as a root does.
  pub Run-RootShows :
      (a : AsyncScheduler Root Claim CircuitId EvmProof TaskId) {req : RecursiveRequest Root Claim}
      {tasks : List (TaskId × NodeParams)} {proof : ProverProof CircuitId EvmProof}
      → Agrees a (scheduler p.prove circuit_id_repo get_evm_proof)
      → IsValid req
      → req.params.node_type ≡ NodeType.root
      → Below top req.params
      → req.params.depth ≤ p.max_depth
      → req.root ≡ p.root_text
      → All p.IsGood req.claims
      → Run a req false tasks (ok proof)
      → (sn : Snark) × (id : CircuitId) × (proof ≡ ProverProof.snark id sn)
        × p.RootShows req.params.initial_depth
            (req.params.depth - req.params.initial_depth)
            req.start
            req.end
            req.claims
            sn
  Run-RootShows a {req} agrees v type down low same good run =
      let (n, returns) = Run-Returns agrees run in
      let more = suc (req.params.depth - req.params.initial_depth) in
      let (sn, id, made, shows) =
        gen-RootShows p circuit_id_repo get_evm_proof knows (n + more) req v type down low same good
          (omega arith) in
      (sn, id, ok-injective (sym (returns more) ∙ made), shows)
