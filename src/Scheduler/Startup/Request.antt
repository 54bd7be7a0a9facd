-- ===== src/Scheduler/Startup/Request.antt =====
-- The request handler of the scheduler server makes valid requests.
use worldcoin_aggregation.Prelude.{
  ◌^◌, ◌≤◌, ◌<◌, ◌≡◌, refl, sym, ◌∙◌, ok-injective, bail_if-eq-ok, false, List, ok, Reason, arith,
  length, bail_if, ltb, ◌==◌, ◌>>◌, ◌%◌,
}
use worldcoin_aggregation.Prelude.Words.{shl64-eq, u32_mod, pow_mono}
use worldcoin_aggregation.Scheduler.NodeParams.{NodeParams}
use worldcoin_aggregation.Scheduler.NodeParams.Children.{IsPlaced}
use worldcoin_aggregation.Scheduler.Request.{RecursiveRequest}
use worldcoin_aggregation.Scheduler.Request.Splits.{IsValid}
use worldcoin_aggregation.Scheduler.Startup.{task_request}

module _ {Root Claim : Type 0} where
  -- A valid request for all claims of a task.
  pub record Requests (p : NodeParams) (world_root : Root) (claims : List Claim)
      (req : RecursiveRequest Root Claim) : Type 0 where
    pub valid : IsValid req
    pub params : req.params ≡ p
    pub all_claims : req.claims ≡ claims
    pub same_root : req.root ≡ world_root

  -- The request for all claims.
  abbrev whole_request : NodeParams → Root → List Claim → RecursiveRequest Root Claim
  whole_request p world_root claims = record {
    start = 0;
    end = length claims;
    root = world_root;
    claims = claims;
    params = p;
  }

  whole_request-Requests :
      (p : NodeParams) (world_root : Root) (claims : List Claim)
      → IsPlaced p.node_type p.depth p.initial_depth
      → p.depth < 31
      → 0 < length claims
      → length claims ≤ 2 ^ p.depth
      → Requests p world_root claims (whole_request p world_root claims)
  whole_request-Requests p world_root claims placed small pos few =
      let top = pow_mono p.depth 30 (omega arith) in
      record {
        valid = record {
          nonempty = pos;
          word = omega arith;
          fits = omega arith;
          counted = omega arith;
          placed = placed;
          small = small;
        };
        params = refl;
        all_claims = refl;
        same_root = refl;
      }

  -- The handler's tests, with exact powers.
  task_request-eq :
      (p : NodeParams) (world_root : Root) (claims : List Claim)
      → p.depth < 31
      → task_request p world_root claims ≡ (do
        bail_if (length claims == 0) Reason.zero_claims
        bail_if (ltb (2 ^ p.depth) (length claims)) Reason.too_many_claims
        ok (record (whole_request p world_root claims) { end = length claims % u32_mod }))
  unfolding task_request
  task_request-eq p world_root claims small = rw (shl64-eq p.depth (omega arith))

  -- For
  pub task_request_total :
      (p : NodeParams) (world_root : Root) (claims : List Claim)
      → IsPlaced p.node_type p.depth p.initial_depth
      → p.depth < 31
      → 0 < length claims
      → length claims ≤ 2 ^ p.depth
      → (req : RecursiveRequest Root Claim) × (task_request p world_root claims ≡ ok req)
        × Requests p world_root claims req
  task_request_total p world_root claims placed small pos few =
      let top = pow_mono p.depth 30 (omega arith) in
      let some_claim : (length claims == 0) ≡ false = ground arith in
      let fits : ltb (2 ^ p.depth) (length claims) ≡ false = ground arith in
      let word : length claims % u32_mod ≡ length claims = omega arith in
      (
        whole_request p world_root claims,
        task_request-eq p world_root claims small ∙ rw (some_claim, fits, word),
        whole_request-Requests p world_root claims placed small pos few,
      )

  -- If the handler of the scheduler server does not refuse a task, for a well-placed final node
  -- with a depth below 31, the task has at least one and at most 2^depth claims, and its request
  -- is valid, at that node, with all the claims and the root of the task.
  pub task_request-Requests :
      (p : NodeParams) (world_root : Root) (claims : List Claim) (req : RecursiveRequest Root Claim)
      → IsPlaced p.node_type p.depth p.initial_depth
      → p.depth < 31
      → task_request p world_root claims ≡ ok req
      → (0 < length claims) × (length claims ≤ 2 ^ p.depth) × Requests p world_root claims req
  task_request-Requests p world_root claims req placed small e =
      let exact = sym (task_request-eq p world_root claims small) ∙ e in
      let (some_claim, e1) = bail_if-eq-ok (length claims == 0) _ _ exact in
      let (fits, e2) = bail_if-eq-ok (ltb (2 ^ p.depth) (length claims)) _ _ e1 in
      let pos : 0 < length claims = ground arith in
      let few : length claims ≤ 2 ^ p.depth = ground arith in
      let (made, asked, is) = task_request_total p world_root claims placed small pos few in
      let same_req = ok-injective (sym asked ∙ e) in (pos, few, rw (← same_req) is)
