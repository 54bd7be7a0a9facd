-- ===== src/System/V2.antt =====
-- The V2 circuits fill the interface of the tree, and the theorem on their root.
pub mod Leaf
pub mod Joined
pub mod Halves
pub mod Node
use mathlib.Core.Path.{subst}
use worldcoin_aggregation.Prelude.{
  ℕ, suc, ◌+◌, ◌-◌, ◌^◌, ◌≤◌, ◌<◌, ◌≡◌, refl, sym, ap, ◌∙◌, Option, List, [], ◌∷◌, ◌++◌, map,
  Result, ok, arith, All, length,
}
use worldcoin_aggregation.Prelude.Words.{u32_mod}
use worldcoin_aggregation.Halo2.{IsChip}
use worldcoin_aggregation.Circuits.Claims.{ClaimInput}
use worldcoin_aggregation.Circuits.Snarks.{Snark}
use worldcoin_aggregation.Circuits.V2.ClaimTrees.{claim_root}
use worldcoin_aggregation.Circuits.V2.Roots.{hi_lo}
use worldcoin_aggregation.Scheduler.NodeParams.{NodeType, NodeParams}
use worldcoin_aggregation.Scheduler.NodeParams.Children.{IsPlaced}
use worldcoin_aggregation.Scheduler.NodeParams.Chain.{Below}
use worldcoin_aggregation.Scheduler.Request.{RecursiveRequest}
use worldcoin_aggregation.Scheduler.Request.Splits.{IsValid}
use worldcoin_aggregation.Scheduler.Local.{ProverProof, RequestRouter, WorldcoinRequestEvm}
use worldcoin_aggregation.System.{Setup, prove_v2, aggregation_snark}
use worldcoin_aggregation.System.Honest.{Terms, IsHonest, IsGood, HasRoom, header_for}
use worldcoin_aggregation.System.Leaves.{leaf_request_of}
use worldcoin_aggregation.System.Snarks.{positions-none}
use worldcoin_aggregation.System.Tree.{TreeProver}
use worldcoin_aggregation.System.Calls.{gen}
use worldcoin_aggregation.System.Nodes.{Knows}
use worldcoin_aggregation.System.Proved.{gen-RootShows}
use worldcoin_aggregation.System.V2.Leaf.{IsPacked, AcceptsV2, prove-leaf}
use worldcoin_aggregation.System.V2.Halves.{ShowsV2, joinable}
use worldcoin_aggregation.System.V2.Node.{intermediate-ShowsV2, root-root_shown}

module _ {Vk Root Claim : Type 0} (s : Setup Vk Root Claim) (t : Terms Root Claim) where
  -- A claim that the V2 leaf accepts.
  pub record IsGoodV2 (claim : Claim) : Type 0 where
    pub good : IsGood s t claim
    pub packed : IsPacked s.chip (t.read claim)

  -- The instances of a root proof behind its accumulator.
  abbrev pub root_shown_v2 : ℕ → ℕ → List Claim → List ℕ
  root_shown_v2 d num_claims claims =
      t.vk_hash.hi
      ∷ t.vk_hash.lo
      ∷ t.root
      ∷ num_claims
      ∷ hi_lo (claim_root s.chip d (map t.read claims))

  pub record RootShowsV2 (i k start end : ℕ) (claims : List Claim) (sn : Snark) : Type 0 where
    pub acc : List ℕ
    pub size : length acc ≡ s.aggregator.num_fe_accumulator
    pub shape :
        sn ≡ aggregation_snark s.aggregator (acc ++ root_shown_v2 (i + k) (end - start) claims)

  All-IsGood : (claims : List Claim) → All IsGoodV2 claims → All (IsGood s t) claims
  All-IsGood [] h = tt
  All-IsGood (x ∷ xs) h = (IsGoodV2.good h.0, All-IsGood xs h.1)

  module _ (chip : IsChip s.chip) (honest : IsHonest s t (prove_v2 s)) where
    All-accepted :
        (claims : List Claim) → All IsGoodV2 claims → All (AcceptsV2 s t chip) (map t.read claims)
    All-accepted [] h = tt
    All-accepted (x ∷ xs) h = (
      record { accepted = IsGood.accepted (IsGoodV2.good h.0); packed = IsGoodV2.packed h.0 },
      All-accepted xs h.1,
    )

    pub leaf-ShowsV2 :
        (i start end : ℕ) (claims : List Claim)
        → start < end
        → end < u32_mod
        → end ≤ start + 2 ^ i
        → i ≤ 14
        → length claims ≡ end - start
        → All IsGoodV2 claims
        → (sn : Snark) × (prove_v2 s (RequestRouter.leaf (leaf_request_of s t start end i claims))
            ≡ ok sn)
          × ShowsV2 s t i 0 start end claims sn
    leaf-ShowsV2 i start end claims pos word fits low counted good =
        let proved =
          prove-leaf s t chip start end i claims honest pos word fits (omega arith) counted
            (All-IsGood claims good) (All-accepted claims good) in
        let e : i + 0 ≡ i = omega arith in
        (
          _,
          proved,
          record {
            request = RequestRouter.leaf (leaf_request_of s t start end i claims);
            proved = proved;
            acc = [];
            size = refl;
            indices = positions-none;
            instances = rw e refl;
          },
        )

    -- The provers of trees up to a depth for which the safe comparison has room.
    abbrev pub tree_prover_v2 : (deep : ℕ) → deep ≤ 14 → HasRoom s.chip deep → TreeProver Root Claim
    tree_prover_v2 deep bounded roomy = record {
      root_text = t.root_text;
      max_depth = deep;
      prove = prove_v2 s;
      IsGood = IsGoodV2;
      Shows = ShowsV2 s t;
      RootShows = RootShowsV2;
      leaf_shows = λ i start end claims pos word fits low counted good.
          leaf-ShowsV2 i start end claims pos word fits (omega arith) counted good;
      node_shows = λ i k start end claims x y pos word low good halves.
          intermediate-ShowsV2 s t chip honest i k start end claims x y pos word (omega arith)
            (roomy (i + k) (omega arith)) (joinable s t i k start end claims x y pos word halves);
      root_shows = λ i k start end claims x y pos word low good halves.
          let (acc, size, proved) =
            root-root_shown s t chip honest i k start end claims x y pos word (omega arith)
              (roomy (i + k) (omega arith))
              (joinable s t i k start end claims x y pos word halves) in
          let e : i + suc k ≡ suc (i + k) = omega arith in
          (_, proved, record { acc = acc; size = size; shape = rw e refl });
    }

  module _ {CircuitId EvmProof : Type 0} (circuit_id_repo : NodeParams → Option CircuitId)
      (get_evm_proof : CircuitId → WorldcoinRequestEvm → Result EvmProof) {top : NodeParams}
      (knows : Knows circuit_id_repo top) where
    -- If the chip has the laws of IsChip, the conditions of IsHonest hold (the key and the root
    -- of a batch are read and have the sizes that the circuits expect, the aggregator accepts the
    -- snarks that the prover makes and its accumulators have fewer than 2^32 cells), the safe
    -- comparison has room for the numbers of claims of a full tree of some depth D up to 14, and
    -- the table has the circuits of the nodes from top down: then for a valid request at a root
    -- node from top down, of depth at most D, with this root and with claims that are read and
    -- verify, whose fields are field elements and whose receivers are addresses, and with fuel
    -- above the levels of the tree, the local scheduler over the V2 factories and circuits
    -- returns a snark. Its instances are an accumulator, the hash of the key, the root, the
    -- number of claims of the request, and the Merkle root of exactly its claims, in order,
    -- padded with empty ones to 2^depth.
    pub gen-claim_root :
        (fuel deep : ℕ) (req : RecursiveRequest Root Claim)
        → IsChip s.chip
        → HasRoom s.chip deep
        → deep ≤ 14
        → IsHonest s t (prove_v2 s)
        → IsValid req
        → req.params.node_type ≡ NodeType.root
        → Below top req.params
        → req.params.depth ≤ deep
        → req.root ≡ t.root_text
        → All IsGoodV2 req.claims
        → req.params.depth - req.params.initial_depth < fuel
        → (id : CircuitId) × (acc : List ℕ) × (length acc ≡ s.aggregator.num_fe_accumulator)
          × (gen (prove_v2 s) circuit_id_repo get_evm_proof fuel req
              ≡ ok (
                  ProverProof.snark id (
                    aggregation_snark s.aggregator
                      (acc ++ root_shown_v2 req.params.depth (req.end - req.start) req.claims))))
    gen-claim_root fuel deep req chip roomy bounded honest v type down low same good l =
        let i = req.params.initial_depth in
        let (sn, id, made, shows) =
          gen-RootShows (tree_prover_v2 chip honest deep bounded roomy) circuit_id_repo
            get_evm_proof knows fuel req v type down low same good l in
        let above : i < req.params.depth =
          subst (λ ty. IsPlaced ty req.params.depth i) type v.placed in
        let up : i + (req.params.depth - i) ≡ req.params.depth = omega arith in
        (
          id,
          shows.acc,
          shows.size,
          made
              ∙ ap (λ sn. ok (ProverProof.snark id sn))
                  (shows.shape
                    ∙ ap
                        (λ d.
                          aggregation_snark s.aggregator
                            (shows.acc ++ root_shown_v2 d (req.end - req.start) req.claims))
                        up),
        )
