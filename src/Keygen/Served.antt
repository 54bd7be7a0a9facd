-- ===== src/Keygen/Served.antt =====
-- From key generation to a proof: the scheduler server, started with the table that key generation
-- writes, proves every task that is not refused.
use worldcoin_aggregation.Prelude.{
  ℕ, suc, ◌^◌, ◌≤◌, ◌<◌, ◌≡◌, Bool, true, false, List, [], Result, ok, arith, length,
}
use worldcoin_aggregation.Prelude.Maps.{IsTest, get}
use worldcoin_aggregation.Circuits.Snarks.{Snark}
use worldcoin_aggregation.Scheduler.NodeParams.{NodeType, NodeParams}
use worldcoin_aggregation.Scheduler.NodeParams.Children.{IsPlaced, height}
use worldcoin_aggregation.Scheduler.NodeParams.Chain.{here}
use worldcoin_aggregation.Scheduler.Request.{RecursiveRequest}
use worldcoin_aggregation.Scheduler.Local.{RequestRouter, ProverProof, WorldcoinRequestEvm}
use worldcoin_aggregation.Scheduler.Async.{AsyncScheduler, ExecutionResult, Run}
use worldcoin_aggregation.Scheduler.Async.Total.{IsComplete, IsComplete-Run}
use worldcoin_aggregation.Scheduler.Startup.{Tables, fill, load_tables, task_request}
use worldcoin_aggregation.Scheduler.Startup.Loaded.{
  Named, fill-Named, fill-knows, fill-final, load_tables-eq,
}
use worldcoin_aggregation.Scheduler.Startup.Request.{Requests, task_request_total}
use worldcoin_aggregation.Keygen.Chained.{IsTable}
use worldcoin_aggregation.Keygen.Steps.{IsCompleteLib, AllFit}
use worldcoin_aggregation.Keygen.Total.{create_total}
use worldcoin_aggregation.Keygen.{KeygenLib, Made, create_and_serialize_proving_key}

-- What the executor may answer to a task.
abbrev pub Executor : Type 0 → Type 0 → Type 0 → Type 0 → Type 0 → Type 1
Executor Root Claim CircuitId EvmProof TaskId =
    CircuitId
    → RequestRouter Root Claim
    → Bool
    → Result (ExecutionResult CircuitId EvmProof TaskId)
    → Type 0

-- The executor can prove every task.
pub record IsProving {Root Claim CircuitId EvmProof TaskId : Type 0}
    (executes : Executor Root Claim CircuitId EvmProof TaskId) : Type 0 where
  pub proves :
      (id : CircuitId) (router : RequestRouter Root Claim)
      → (task_id : TaskId) × (inner : Snark) × executes id router false
          (ok (record { task_id = task_id; proof = ProverProof.snark id inner }))
  pub proves_evm :
      (id : CircuitId) (request : WorldcoinRequestEvm)
      → (task_id : TaskId) × (proof : EvmProof) × executes id
          (RequestRouter.evm request)
          true
          (ok (record { task_id = task_id; proof = ProverProof.evm_proof proof }))

-- The scheduler that the server makes of its tables.
abbrev pub scheduler_of :
    {Root Claim CircuitId EvmProof TaskId : Type 0}
    → (CircuitId → CircuitId → Bool)
    → Executor Root Claim CircuitId EvmProof TaskId
    → Tables CircuitId
    → AsyncScheduler Root Claim CircuitId EvmProof TaskId
scheduler_of same_id executes t = record {
  circuit_id_repo = t.cids_repo;
  cid_to_params = t.cid_to_params;
  same_id = same_id;
  Executes = executes;
}

abbrev no_tables : {CircuitId : Type 0} → NodeParams → Tables CircuitId
no_tables top = record { final_circuit_params = top; cids_repo = []; cid_to_params = [] }

empty-Named :
    {CircuitId : Type 0} (same_id : CircuitId → CircuitId → Bool) (top : NodeParams)
    → Named same_id (no_tables top)
unfolding get
empty-Named same_id top p id e = cc

module _ {Root Claim CircuitId EvmProof TaskId : Type 0} {same_id : CircuitId → CircuitId → Bool}
    {executes : Executor Root Claim CircuitId EvmProof TaskId} (test : IsTest same_id)
    (proving : IsProving executes) where
  -- A table of key generation, loaded.
  loaded-IsComplete :
      (top : NodeParams) (id : CircuitId) (cids : List (NodeParams × CircuitId))
      → IsTable top id cids
      → (t : Tables CircuitId) × (load_tables cids ≡ ok t)
        × (t.final_circuit_params ≡ top)
        × IsComplete top (scheduler_of same_id executes t)
  loaded-IsComplete top id cids table = (
    fill cids (no_tables top),
    rw table.ends (load_tables-eq table.others top id),
    fill-final cids (no_tables top),
    record {
      knows = λ p down.
          let (found, e) = table.knows p down in fill-knows cids (no_tables top) p found e;
      names = fill-Named same_id test cids (no_tables top) (empty-Named same_id top);
      proves = proving.proves;
      proves_evm = proving.proves_evm;
    },
  )

  -- If the parameters of every size that fits a node are there, key generation succeeds for a
  -- node in such a size with the keys of its child (no size fits a V2 node above depth 14, whose
  -- circuit panics), keys can be written and read, the comparison of circuit ids decides their
  -- equality, and the executor can prove every task: the keys made from an empty table for an EVM
  -- node above the depth of the leaves, with a depth below 31 and a fitting size for every level,
  -- give a table with which the scheduler server starts, and which makes that node its final one;
  -- a task with one to 2^depth claims is then not refused but makes a valid request for all its
  -- claims, and some run of the asynchronous scheduler answers that request by an EVM proof.
  pub create-served :
      {Srs Pk Vk Pinning : Type 0} {lib : KeygenLib CircuitId Srs Pk Vk Pinning}
      {Fits : NodeParams → ℕ → Type 0} {IsKey : NodeParams → Pk → Pinning → Type 0}
      → IsCompleteLib lib Fits IsKey
      → (ks : List ℕ) (round : ℕ) (p : NodeParams) → p.node_type ≡ NodeType.evm round
      → p.initial_depth < p.depth
      → p.depth < 31
      → AllFit Fits ks p
      → height p < length ks
      → (world_root : Root) (claims : List Claim) → 0 < length claims
      → length claims ≤ 2 ^ p.depth
      → (made : Made CircuitId Pk Pinning) × (create_and_serialize_proving_key lib
            (suc (height p))
            (record { k_at_depth = ks; params = p })
            []
          ≡ ok made)
        × (t : Tables CircuitId) × (load_tables made.cid_repo ≡ ok t)
        × (t.final_circuit_params ≡ p)
        × (req : RecursiveRequest Root Claim) × (task_request t.final_circuit_params world_root
              claims
            ≡ ok req)
        × Requests p world_root claims req
        × (tasks : List (TaskId × NodeParams)) × (proof : EvmProof) × Run
            (scheduler_of same_id executes t)
            req
            true
            tasks
            (ok (ProverProof.evm_proof proof))
  create-served complete ks round p e above small fit sized world_root claims pos few =
      let placed : IsPlaced p.node_type p.depth p.initial_depth = rw e (omega arith) in
      let (made, created, table, is_key) =
        create_total complete (suc (height p)) ks p placed small fit (omega arith) sized in
      let (t, loaded, final, ready) = loaded-IsComplete p made.circuit_id made.cid_repo table in
      let (req, asked, is) = task_request_total p world_root claims placed small pos few in
      let (tasks, proof, run) =
        IsComplete-Run ready round req (rw is.params here) is.valid (rw is.params e)
          (rw is.params above) in
      (made, created, t, loaded, final, req, rw final asked, is, tasks, proof, run)
