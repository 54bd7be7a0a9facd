-- ===== src/Scheduler/Server.antt =====
-- circuit/src/bin/local_server.rs: the request handler of the local server, without its logging. The
-- request id is not used by the local scheduler.
use worldcoin_aggregation.Prelude.{
  ℕ, suc, ◌-◌, ◌<◌, ◌≡◌, refl, Bool, true, false, not, ◌&&◌, Option, none, some, List, Result, ok,
  err, panic, Reason, arith, bail_if, leb, ltb, ◌==◌, ◌>>=◌, ◌>>◌,
}
use worldcoin_aggregation.Prelude.Words.{sub32, shl32, sub32-eq, shl32-eq}
use worldcoin_aggregation.Scheduler.NodeParams.{NodeType, NodeParams}
use worldcoin_aggregation.Scheduler.NodeParams as Nodes
use worldcoin_aggregation.Scheduler.NodeParams.Children.{height}
use worldcoin_aggregation.Scheduler.NodeParams.Chain.{Below}
use worldcoin_aggregation.Scheduler.Request.{RecursiveRequest}
use worldcoin_aggregation.Scheduler.Request.Splits.{IsValid}
use worldcoin_aggregation.Scheduler.Local.{LocalScheduler, ProverProof, recursive_gen_proof}
use worldcoin_aggregation.Scheduler.Local.Total.{
  IsComplete, KnowsNodes, recursive_gen_proof_evm_leaf, recursive_gen_proof_total_evm,
}

abbrev pub initial_depth_default : ℕ
initial_depth_default = 3

abbrev pub extra_rounds : ℕ
extra_rounds = 1

-- `Request` of the local server.
pub record ProveRequest (Root Claim : Type 0) : Type 0 where
  pub start : ℕ
  pub end : ℕ
  pub root : Root
  pub claims : List Claim
  pub depth : Option ℕ
  pub initial_depth : Option ℕ
  pub is_final : Option Bool
  pub for_evm : Option Bool
  pub rounds : Option ℕ

abbrev pub unwrap_or {ℓ} : {A : Type ℓ} → Option A → A → A
unwrap_or none a = a
unwrap_or (some b) a = b

-- The node that a request asks for.
unfoldable pub node_type_of : Bool → Bool → ℕ → Bool → NodeType
node_type_of true true rounds at_leaves = NodeType.evm rounds
node_type_of true false rounds at_leaves = NodeType.root
node_type_of false for_evm rounds true = NodeType.leaf
node_type_of false for_evm rounds false = NodeType.intermediate

abbrev pub evm_of : {CircuitId EvmProof : Type 0} → ProverProof CircuitId EvmProof → Result EvmProof
evm_of (ProverProof.evm_proof proof) = ok proof
evm_of (ProverProof.snark circuit_id inner) = err (panic Reason.unreachable)

module _ {Root Claim CircuitId EvmProof : Type 0} where
  -- The answer, which is empty where no EVM proof is asked for.
  unfoldable pub run :
      ℕ
      → LocalScheduler Root Claim CircuitId EvmProof
      → RecursiveRequest Root Claim
      → Bool
      → Result (Option EvmProof)
  run fuel s req true = do
    prover_proof ← recursive_gen_proof fuel s req true
    proof ← evm_of prover_proof
    ok (some proof)
  run fuel s req false = do recursive_gen_proof fuel s req false; ok none

  unfoldable pub serve :
      ℕ
      → LocalScheduler Root Claim CircuitId EvmProof
      → ProveRequest Root Claim
      → Result (Option EvmProof)
  serve fuel s task = do
    let depth = unwrap_or task.depth initial_depth_default
    let initial_depth = unwrap_or task.initial_depth initial_depth_default
    bail_if (ltb (shl32 depth) (sub32 task.end task.start)) Reason.too_many_proofs
    let is_final = unwrap_or task.is_final true
    let for_evm = unwrap_or task.for_evm true
    bail_if (for_evm && not is_final) Reason.evm_not_final
    let rounds = unwrap_or task.rounds extra_rounds
    let node_type = node_type_of is_final for_evm rounds (depth == initial_depth)
    params ← Nodes.new node_type depth initial_depth
    run fuel s
        (record {
          start = task.start;
          end = task.end;
          root = task.root;
          claims = task.claims;
          params = params;
        })
        for_evm

module _ {Root Claim : Type 0} where
  -- The request that the handler makes of a task for an EVM proof.
  abbrev pub evm_request : ProveRequest Root Claim → ℕ → ℕ → RecursiveRequest Root Claim
  evm_request task depth initial_depth = record {
    start = task.start;
    end = task.end;
    root = task.root;
    claims = task.claims;
    params = record {
      node_type = NodeType.evm (unwrap_or task.rounds extra_rounds);
      depth = depth;
      initial_depth = initial_depth;
    };
  }

module _ {Root Claim CircuitId EvmProof : Type 0} {top : NodeParams}
    {s : LocalScheduler Root Claim CircuitId EvmProof} (complete : IsComplete top s) where
  serve-eq :
      (fuel depth initial_depth : ℕ) (task : ProveRequest Root Claim)
      → task.depth ≡ some depth
      → task.initial_depth ≡ some initial_depth
      → unwrap_or task.is_final true ≡ true
      → unwrap_or task.for_evm true ≡ true
      → IsValid (evm_request task depth initial_depth)
      → serve fuel s task ≡ run fuel s (evm_request task depth initial_depth) true
  unfolding serve node_type_of Nodes.new
  serve-eq fuel depth initial_depth task d i f e v =
      let n : sub32 task.end task.start ≡ task.end - task.start =
        sub32-eq task.end task.start (omega (arith, v.nonempty)) (omega (arith, v.fits, v.word)) in
      let few : ltb (shl32 depth) (sub32 task.end task.start) ≡ false =
        ground (arith, n, v.fits, v.small, shl32-eq depth) in
      let deep : leb initial_depth depth ≡ true = ground (arith, v.placed) in
      rw (d, i, f, e, few, deep)

  -- If the prover succeeds and the circuits of the nodes from top down are known, a task for a
  -- final EVM proof, asked for or by default, that gives its depth and initial depth, the first
  -- the larger, and makes a valid request for one of these nodes, is answered by a proof, with
  -- fuel above the height of its node.
  pub serve_total :
      (fuel depth initial_depth : ℕ) (task : ProveRequest Root Claim)
      → task.depth ≡ some depth
      → task.initial_depth ≡ some initial_depth
      → unwrap_or task.is_final true ≡ true
      → unwrap_or task.for_evm true ≡ true
      → Below top (evm_request task depth initial_depth).params
      → IsValid (evm_request task depth initial_depth)
      → initial_depth < depth
      → height ((evm_request task depth initial_depth).params) < fuel
      → (proof : EvmProof) × (serve fuel s task ≡ ok (some proof))
  unfolding run
  serve_total fuel depth initial_depth task d i f e down v above l =
      let (proof, proved) =
        recursive_gen_proof_total_evm complete fuel (unwrap_or task.rounds extra_rounds)
          (evm_request task depth initial_depth) down v refl above l in
      (proof, rw (serve-eq fuel depth initial_depth task d i f e v, proved))

module _ {Root Claim CircuitId EvmProof : Type 0} {top : NodeParams}
    (s : LocalScheduler Root Claim CircuitId EvmProof) (knows : KnowsNodes top s) where
  -- If the circuits of the nodes from top down are known, a task that leaves depth, initial
  -- depth, finality and the kind of proof to the defaults of the local server, and makes a valid
  -- request for one of these nodes, reaches code that is marked unreachable.
  pub serve_default :
      (fuel : ℕ) (task : ProveRequest Root Claim)
      → task.depth ≡ none
      → task.initial_depth ≡ none
      → task.is_final ≡ none
      → task.for_evm ≡ none
      → Below top (evm_request task initial_depth_default initial_depth_default).params
      → IsValid (evm_request task initial_depth_default initial_depth_default)
      → serve (suc fuel) s task ≡ err (panic Reason.unreachable)
  unfolding run serve node_type_of Nodes.new
  serve_default fuel task d i f e down v =
      let n : sub32 task.end task.start ≡ task.end - task.start =
        sub32-eq task.end task.start (omega (arith, v.nonempty)) (omega (arith, v.fits, v.word)) in
      let few : ltb (shl32 3) (sub32 task.end task.start) ≡ false =
        ground (arith, n, v.fits, shl32-eq 3) in
      rw (
        d,
        i,
        f,
        e,
        few,
        recursive_gen_proof_evm_leaf s knows fuel
            (evm_request task initial_depth_default initial_depth_default) down v refl,
      )
