-- ===== src/Scheduler/Startup.antt =====
-- circuit/src/bin/scheduler_server.rs: the tables that the scheduler server makes of the file of circuit
-- ids, and the checks of its request handler. The file is the table that circuit/src/bin/keygen.rs
-- writes, in its order; its JSON is left out.
pub mod Loaded
pub mod Request
use worldcoin_aggregation.Prelude.{
  ℕ, ◌%◌, Bool, Option, none, some, List, [], ◌∷◌, Result, ok, err, bail, panic, Reason, assert,
  bail_if, or_fault, length, not, ltb, ◌==◌, ◌>>=◌, ◌>>◌,
}
use worldcoin_aggregation.Prelude.Words.{shl64, u32_mod}
use worldcoin_aggregation.Prelude.Maps.{HashMap, put}
use worldcoin_aggregation.Scheduler.NodeParams.{NodeParams}
use worldcoin_aggregation.Scheduler.Request.{RecursiveRequest}

pub record Tables (CircuitId : Type 0) : Type 0 where
  pub final_circuit_params : NodeParams
  pub cids_repo : HashMap NodeParams CircuitId
  pub cid_to_params : HashMap CircuitId NodeParams

-- `last()`
abbrev pub last_of : {A : Type 0} → List A → Option A
last_of [] = none
last_of (x ∷ []) = some x
last_of (x ∷ y ∷ rest) = last_of (y ∷ rest)

module _ {CircuitId : Type 0} where
  -- The loop over the entries.
  unfoldable pub fill : List (NodeParams × CircuitId) → Tables CircuitId → Tables CircuitId
  fill [] t = t
  fill ((params, circuit_id) ∷ cids) t = fill cids (record {
    final_circuit_params = t.final_circuit_params;
    cids_repo = put params circuit_id t.cids_repo;
    cid_to_params = put circuit_id params t.cid_to_params;
  })

  -- The start of `rocket`.
  unfoldable pub load_tables : List (NodeParams × CircuitId) → Result (Tables CircuitId)
  load_tables cids = do
    assert (ltb 0 (length cids))
    final ← or_fault (last_of cids) (panic Reason.unwrap_none)
    ok (fill cids (record { final_circuit_params = final.0; cids_repo = []; cid_to_params = [] }))

module _ {Root Claim : Type 0} where
  -- `serve` of the scheduler server, up to the request that it has proved.
  unfoldable pub task_request :
      NodeParams → Root → List Claim → Result (RecursiveRequest Root Claim)
  task_request final_circuit_params world_root claims = do
    let num_proofs = length claims
    let max_proofs = shl64 final_circuit_params.depth
    bail_if (num_proofs == 0) Reason.zero_claims
    bail_if (ltb max_proofs num_proofs) Reason.too_many_claims
    ok (record {
      start = 0;
      end = num_proofs % u32_mod;
      root = world_root;
      claims = claims;
      params = final_circuit_params;
    })
