-- ===== src/System/Nodes.antt =====
-- One node of the tree: what it needs of the table and of its request, and its call once its
-- dependencies are proved.
use mathlib.Core.Path.{subst}
use worldcoin_aggregation.Prelude.{
  ℕ, suc, ◌+◌, ◌^◌, ◌≤◌, ◌≡◌, sym, ap, ◌∙◌, true, some, Option, List, Result, ok, arith, All,
  traverse, ◌==◌, ◌>>=◌,
}
use worldcoin_aggregation.Circuits.Snarks.{Snark}
use worldcoin_aggregation.Scheduler.NodeParams.{NodeType, NodeParams}
use worldcoin_aggregation.Scheduler.NodeParams.Children.{IsInner, IsJoining, child-IsInner}
use worldcoin_aggregation.Scheduler.NodeParams.Chain.{Below, next}
use worldcoin_aggregation.Scheduler.Request.{RecursiveRequest, dependencies}
use worldcoin_aggregation.Scheduler.Request.Splits.{IsValid, dependencies-Splits}
use worldcoin_aggregation.Scheduler.Local.{
  ProverProof, RequestRouter, WorldcoinRequestEvm, WorldcoinRequestLeaf, handle_recursive_request,
  get_circuit_id, snark_of, recursive_gen_proof,
}
use worldcoin_aggregation.Scheduler.Local.Routes.{leaf_of, leaf_request-leaf_of, dependencies-leaf}
use worldcoin_aggregation.System.Snarks.{node_of}
use worldcoin_aggregation.System.Tree.{TreeProver}
use worldcoin_aggregation.System.Calls.{gen, router_of, gen-joining, generate_proof-prove}
use worldcoin_aggregation.System.Gathered.{Gathered, gather, joining-depth}

-- The table has the circuits of the nodes from `top` down.
abbrev pub Knows : {CircuitId : Type 0} → (NodeParams → Option CircuitId) → NodeParams → Type 0
Knows {CircuitId} circuit_id_repo top =
    (p : NodeParams) → Below top p → (id : CircuitId) × (circuit_id_repo p ≡ some id)

-- A batch for which proving is expected to succeed.
pub record IsBatch {Root Claim : Type 0} (p : TreeProver Root Claim) (i k : ℕ)
    (req : RecursiveRequest Root Claim) : Type 0 where
  pub valid : IsValid req
  pub leaves : req.params.initial_depth ≡ i
  pub deep : req.params.depth ≡ i + k
  pub low : i + k ≤ p.max_depth
  pub same_root : req.root ≡ p.root_text
  pub good : All p.IsGood req.claims

-- The request for a leaf with another depth and root.
abbrev leaf_at :
    {Root Claim : Type 0} → RecursiveRequest Root Claim → ℕ → Root → WorldcoinRequestLeaf Root Claim
leaf_at req d world_root = record {
  start = req.start;
  end = req.end;
  depth = d;
  root = world_root;
  claims = req.claims;
}

module _ {Root Claim CircuitId EvmProof : Type 0} (p : TreeProver Root Claim)
    (circuit_id_repo : NodeParams → Option CircuitId)
    (get_evm_proof : CircuitId → WorldcoinRequestEvm → Result EvmProof) {top : NodeParams}
    (knows : Knows circuit_id_repo top) where
  -- What the scheduler returns for an inner node.
  abbrev pub Proves : ℕ → ℕ → ℕ → RecursiveRequest Root Claim → Type 0
  Proves i k fuel req =
      (sn : Snark) × (id : CircuitId) × (gen p.prove circuit_id_repo get_evm_proof fuel req
        ≡ ok (ProverProof.snark id sn))
      × p.Shows i k req.start req.end req.claims sn

  pub leaf-Proves :
      (i fuel : ℕ) (req : RecursiveRequest Root Claim)
      → IsBatch p i 0 req
      → Below top req.params
      → Proves i 0 (suc fuel) req
  unfolding recursive_gen_proof get_circuit_id handle_recursive_request traverse
  leaf-Proves i fuel req batch down =
      let v = batch.valid in
      let (id, known) = knows req.params down in
      let depth : req.params.depth ≡ i = omega (arith, batch.deep) in
      let width : 2 ^ req.params.depth ≡ 2 ^ i = ap (λ d. 2 ^ d) depth in
      let same : (req.params.depth == req.params.initial_depth) ≡ true =
        ground (arith, batch.leaves) in
      let level : req.params.depth ≡ req.params.initial_depth = omega (arith, batch.leaves) in
      let (sn, proved, shown) =
        p.leaf_shows i req.start req.end req.claims v.nonempty (omega (arith, v.fits, v.word))
          (omega (arith, v.fits)) (omega (arith, batch.low)) v.counted batch.good in
      let request : leaf_of req ≡ leaf_at req i p.root_text =
        ap (λ d. leaf_at req d req.root) depth ∙ ap (leaf_at req i) batch.same_root in
      (
        sn,
        id,
        rw (
          dependencies-leaf req v level,
          same,
          leaf_request-leaf_of req v,
          known,
          generate_proof-prove p.prove circuit_id_repo get_evm_proof id
              (RequestRouter.leaf (leaf_of req))
              (ap (λ l. p.prove (RequestRouter.leaf l)) request ∙ proved),
        ),
        shown,
      )

  -- The dependencies of a node that joins two proofs, proved by a smaller fuel.
  pub record Ready (i k fuel : ℕ) (req : RecursiveRequest Root Claim) : Type 0 where
    pub deps : List (RecursiveRequest Root Claim)
    pub split : dependencies req ≡ ok deps
    pub proofs :
        Gathered
          (p.Shows i k)
          p.IsGood
          (2 ^ (i + k))
          req
          (λ dep. gen p.prove circuit_id_repo get_evm_proof fuel dep >>= snark_of)
          deps

  pub ready :
      (i k fuel : ℕ) (req : RecursiveRequest Root Claim)
      → IsBatch p i (suc k) req
      → IsJoining req.params.node_type
      → Below top req.params
      → ((dep : RecursiveRequest Root Claim)
          → IsBatch p i k dep
          → IsInner dep.params.node_type
          → Below top dep.params
          → Proves i k fuel dep)
      → Ready i k fuel req
  unfolding snark_of
  ready i k fuel req batch joining down below =
      let up : req.params.depth ≡ suc (i + k) = omega (arith, batch.deep) in
      let (deps, split, splits) =
        dependencies-Splits req batch.valid (omega (arith, batch.leaves)) in
      record {
        deps = deps;
        split = split;
        proofs =
            gather (p.Shows i k) p.IsGood (i + k) req batch.valid joining up
              (λ dep. gen p.prove circuit_id_repo get_evm_proof fuel dep >>= snark_of) batch.good
              (λ dep is good.
                let (sn, id, made, shown) =
                  below dep
                    (record {
                      valid = is.valid;
                      leaves = is.is_child.same_leaves ∙ batch.leaves;
                      deep =
                          is.is_child.below
                          ∙ (joining-depth req.params.node_type req.params.depth joining
                              ∙ omega arith);
                      low = omega (arith, batch.low);
                      same_root = is.same_root ∙ batch.same_root;
                      good = good;
                    })
                    (child-IsInner req.params.node_type req.params.depth req.params.initial_depth
                      joining is.is_child.found)
                    (next down is.is_child.found) in
                (sn, rw made, shown))
              deps splits;
      }

  -- The call for a node whose dependencies are proved.
  pub node-gen :
      (i k fuel : ℕ) (req : RecursiveRequest Root Claim) (type : NodeType) {out : Snark}
      → IsBatch p i (suc k) req
      → req.params.node_type ≡ type
      → IsJoining type
      → Below top req.params
      → (r : Ready i k fuel req)
      → p.prove (router_of type (node_of req.start req.end (suc (i + k)) i r.proofs.x r.proofs.y))
        ≡ ok out
      → (id : CircuitId) × (gen p.prove circuit_id_repo get_evm_proof (suc fuel) req
          ≡ ok (ProverProof.snark id out))
  node-gen i k fuel req type {out} batch is joining down r proved =
      let (id, known) = knows req.params down in
      let g = r.proofs in
      let up : req.params.depth ≡ suc (i + k) = omega (arith, batch.deep) in
      (
        id,
        gen-joining p.prove circuit_id_repo get_evm_proof fuel req r.deps g.snarks g.x g.y id
            r.split g.gathered g.counted g.two (omega (arith, batch.leaves))
            (subst IsJoining (sym is) joining) known
            (ap
                (λ ty. p.prove (
                  router_of ty
                    (node_of req.start req.end req.params.depth req.params.initial_depth g.x g.y)))
                is
              ∙ (ap
                    (λ d. p.prove (
                      router_of type
                        (node_of req.start req.end d req.params.initial_depth g.x g.y)))
                    up
                  ∙ (ap
                        (λ l.
                          p.prove
                            (router_of type (node_of req.start req.end (suc (i + k)) l g.x g.y)))
                        batch.leaves
                      ∙ proved))),
      )
