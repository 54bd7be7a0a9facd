-- ===== src/Scheduler/Request.antt =====
-- circuit/src/scheduler/recursive_request.rs: a request for the claims [start, end) and the requests
-- that it depends on. The root and the claims are passed on as they are, so their types are
-- parameters.
pub mod Steps
pub mod Parts
pub mod Splits
use worldcoin_aggregation.Prelude.{
  ℕ, zero, suc, ◌+◌, ◌-◌, min, Option, none, some, List, [], ◌∷◌, Result, ok, err, panic, Reason,
  assert, bail_if, or_fault, traverse, slice, ltb, leb, if◌then◌else◌, ◌==◌, ◌>>=◌, ◌>>◌,
}
use worldcoin_aggregation.Prelude.Words.{add32, sub32, shl32, shl64}
use worldcoin_aggregation.Scheduler.NodeParams.{NodeParams, child}

pub record RecursiveRequest (Root Claim : Type 0) : Type 0 where
  pub start : ℕ
  pub end : ℕ
  pub root : Root
  pub claims : List Claim
  pub params : NodeParams

module _ {Root Claim : Type 0} where
  -- `RecursiveRequest::new`
  unfoldable pub new : ℕ → ℕ → Root → List Claim → NodeParams → Result (RecursiveRequest Root Claim)
  new start end root claims params = do
    bail_if (leb end start) Reason.empty_range
    bail_if (ltb (shl32 params.depth) (sub32 end start)) Reason.too_many_proofs
    bail_if (ltb params.depth params.initial_depth) Reason.depth_below_initial
    ok (record { start = start; end = end; root = root; claims = claims; params = params })

  unfoldable pub num_proofs : RecursiveRequest Root Claim → ℕ
  num_proofs req = sub32 req.end req.start

-- `(start..end).step_by(step)`, with fuel for the number of steps.
unfoldable pub steps : ℕ → ℕ → ℕ → ℕ → List ℕ
steps zero i end step = []
steps (suc fuel) i end step =
    let rest = steps fuel (i + step) end step in if ltb i end then i ∷ rest else []

unfoldable pub step_by : ℕ → ℕ → ℕ → List ℕ
step_by start end step = steps (end - start) start end step

module _ {Root Claim : Type 0} where
  -- The request for the claims from `i` on.
  unfoldable pub dependency :
      RecursiveRequest Root Claim → NodeParams → ℕ → Result (RecursiveRequest Root Claim)
  dependency req child_params i = do
    let start_idx = i
    let end_idx = min req.end (add32 i (shl32 child_params.depth))
    claims ← slice req.claims (sub32 start_idx req.start) (sub32 end_idx req.start)
    ok (record {
      start = start_idx;
      end = end_idx;
      root = req.root;
      claims = claims;
      params = child_params;
    })

  -- `RecursiveRequest::dependencies`
  unfoldable pub dependencies :
      RecursiveRequest Root Claim → Result (List (RecursiveRequest Root Claim))
  dependencies req = do
    assert (leb (sub32 req.end req.start) (shl32 req.params.depth))
    if req.params.depth == req.params.initial_depth then ok [] else do
      found ← child req.params
      child_params ← or_fault found (panic Reason.unwrap_none)
      traverse (dependency req child_params) (step_by req.start req.end (shl64 child_params.depth))
