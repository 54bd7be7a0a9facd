-- ===== src/Scheduler/Local/Routes.antt =====
-- The requests that the scheduler makes of the prover for a valid request.
use worldcoin_aggregation.Prelude.{
  ℕ, suc, ◌≤◌, ◌<◌, ◌≡◌, refl, ap, false, List, [], ◌∷◌, Result, ok, arith, All, traverse, length,
  ltb, ◌==◌,
}
use worldcoin_aggregation.Prelude.Words.{sub32, shl32, sub32-eq, shl32-eq}
use worldcoin_aggregation.Circuits.Snarks.{Snark}
use worldcoin_aggregation.Scheduler.NodeParams.{NodeType}
use worldcoin_aggregation.Scheduler.NodeParams.Children.{IsPlaced}
use worldcoin_aggregation.Scheduler.Request.{RecursiveRequest, dependencies}
use worldcoin_aggregation.Scheduler.Request.Splits.{IsValid}
use worldcoin_aggregation.Scheduler.Local.{
  RequestRouter, WorldcoinRequestLeaf, WorldcoinRequestEvm, WorldcoinRequestNode, get_request_leaf,
  two_snarks, node_request, route, leaf_request, handle_recursive_request,
}

-- A loop whose rounds all end.
pub traverse_total :
    {A B : Type 0} (f : A → Result B) (P : A → Type 0)
    → ((a : A) → P a → (b : B) × (f a ≡ ok b))
    → (xs : List A) → All P xs
    → (ys : List B) × (traverse f xs ≡ ok ys) × (length ys ≡ length xs)
unfolding traverse
traverse_total f P total [] h = ([], refl, refl)
traverse_total f P total (x ∷ xs) h =
    let (y, first) = total x h.0 in
    let (ys, rest, len) = traverse_total f P total xs h.1 in (y ∷ ys, rw (first, rest), ap suc len)

module _ {Root Claim : Type 0} where
  -- The request for a leaf.
  abbrev pub leaf_of : RecursiveRequest Root Claim → WorldcoinRequestLeaf Root Claim
  leaf_of req = record {
    start = req.start;
    end = req.end;
    depth = req.params.depth;
    root = req.root;
    claims = req.claims;
  }

  pub leaf_request-leaf_of :
      (req : RecursiveRequest Root Claim)
      → IsValid req
      → leaf_request req ≡ ok (RequestRouter.leaf (leaf_of req))
  unfolding leaf_request get_request_leaf
  leaf_request-leaf_of req v =
      let no : ltb (shl32 req.params.depth) (sub32 req.end req.start) ≡ false = ground (
        arith,
        v.nonempty,
        v.word,
        v.fits,
        v.small,
        shl32-eq req.params.depth,
        sub32-eq req.end req.start,
      ) in
      rw no

  pub leaf_request_total :
      (req : RecursiveRequest Root Claim)
      → IsValid req
      → (request : WorldcoinRequestLeaf Root Claim) × (leaf_request req
          ≡ ok (RequestRouter.leaf request))
  leaf_request_total req v = (leaf_of req, leaf_request-leaf_of req v)

  pub dependencies-leaf :
      (req : RecursiveRequest Root Claim)
      → IsValid req
      → req.params.depth ≡ req.params.initial_depth
      → dependencies req ≡ ok []
  unfolding dependencies
  dependencies-leaf req v e = ground (
    arith,
    v.nonempty,
    v.word,
    v.fits,
    v.small,
    shl32-eq req.params.depth,
    sub32-eq req.end req.start,
  )

  pub node_request_total :
      (req : RecursiveRequest Root Claim) (snarks : List Snark)
      → 0 < length snarks
      → length snarks ≤ 2
      → (node : WorldcoinRequestNode) × (node_request req snarks ≡ ok node)
  unfolding node_request two_snarks
  node_request_total req [] pos le = elim pos [ ]
  node_request_total req (x ∷ []) pos le = (_, refl)
  node_request_total req (x ∷ y ∷ []) pos le = (_, refl)
  node_request_total req (x ∷ y ∷ z ∷ rest) pos le = absurd (omega arith)

  -- Whether the request is for the prover of EVM proofs.
  abbrev pub IsEvm : RequestRouter Root Claim → Type 0
  IsEvm router = (request : WorldcoinRequestEvm) × (router ≡ RequestRouter.evm request)

  pub route_total :
      (t : NodeType) (req : RecursiveRequest Root Claim) (snarks : List Snark)
      → IsPlaced t req.params.depth req.params.initial_depth
      → req.params.initial_depth < req.params.depth
      → 0 < length snarks
      → length snarks ≤ 2
      → ((round : ℕ) → t ≡ NodeType.evm round → length snarks ≡ 1)
      → (router : RequestRouter Root Claim) × (route t req snarks ≡ ok router)
        × ((round : ℕ) → t ≡ NodeType.evm round → IsEvm router)
  unfolding route
  route_total NodeType.leaf req snarks placed above pos le one = absurd (omega arith)
  route_total NodeType.intermediate req snarks placed above pos le one =
      let (node, built) = node_request_total req snarks pos le in
      (RequestRouter.intermediate node, rw built, λ round e. cc)
  route_total NodeType.root req snarks placed above pos le one =
      let (node, built) = node_request_total req snarks pos le in
      (RequestRouter.root node, rw built, λ round e. cc)
  route_total (NodeType.evm round) req [] placed above pos le one = elim pos [ ]
  route_total (NodeType.evm round) req (x ∷ []) placed above pos le one =
      (_, refl, λ r e. (_, refl))
  route_total (NodeType.evm round) req (x ∷ y ∷ rest) placed above pos le one =
      absurd (omega (arith, one round refl))

  -- What is left to do once the dependencies are proved.
  pub above_total :
      (req : RecursiveRequest Root Claim) (snarks : List Snark)
      → IsValid req
      → req.params.initial_depth < req.params.depth
      → 0 < length snarks
      → length snarks ≤ 2
      → ((round : ℕ) → req.params.node_type ≡ NodeType.evm round → length snarks ≡ 1)
      → (router : RequestRouter Root Claim) × (handle_recursive_request req snarks ≡ ok router)
        × ((round : ℕ) → req.params.node_type ≡ NodeType.evm round → IsEvm router)
  unfolding handle_recursive_request
  above_total req snarks v above pos le one =
      let (router, built, evm) =
        route_total req.params.node_type req snarks v.placed above pos le one in
      let inner : (req.params.depth == req.params.initial_depth) ≡ false = ground arith in
      let some_snark : (length snarks == 0) ≡ false = ground arith in
      (router, rw (inner, some_snark) built, evm)
