-- ===== src/System/V1.antt =====
-- The V1 circuits fill the interface of the tree, and the theorem on their root.
pub mod Leaf
pub mod Joined
pub mod Hashed
pub mod Halves
pub mod Node
use mathlib.Core.Path.{subst}
use worldcoin_aggregation.Prelude.{
  ℕ, zero, suc, ◌+◌, ◌-◌, ◌^◌, ◌≤◌, ◌<◌, ◌≡◌, refl, sym, ap, ◌∙◌, Option, List, [], ◌∷◌, ◌++◌, map,
  Result, ok, arith, All, length, take,
}
use worldcoin_aggregation.Prelude.Words.{u32_mod}
use worldcoin_aggregation.Halo2.{IsChip, HiLo}
use worldcoin_aggregation.Circuits.Claims.{ClaimInput}
use worldcoin_aggregation.Circuits.Snarks.{Snark}
use worldcoin_aggregation.Circuits.V2.Roots.{hi_lo}
use worldcoin_aggregation.Circuits.V1.Root.Output.{preimage}
use worldcoin_aggregation.Scheduler.NodeParams.{NodeType, NodeParams}
use worldcoin_aggregation.Scheduler.NodeParams.Children.{IsPlaced}
use worldcoin_aggregation.Scheduler.NodeParams.Chain.{Below}
use worldcoin_aggregation.Scheduler.Request.{RecursiveRequest}
use worldcoin_aggregation.Scheduler.Request.Splits.{IsValid}
use worldcoin_aggregation.Scheduler.Local.{ProverProof, RequestRouter, WorldcoinRequestEvm}
use worldcoin_aggregation.System.{Setup, prove, aggregation_snark}
use worldcoin_aggregation.System.Fill.{fill, length-fill, take-fill}
use worldcoin_aggregation.System.Honest.{Terms, IsHonest, IsGood, HasRoom, header_for, length-map}
use worldcoin_aggregation.System.Leaves.{leaf_request_of}
use worldcoin_aggregation.System.Snarks.{positions-none}
use worldcoin_aggregation.System.Tree.{TreeProver, Showing}
use worldcoin_aggregation.System.Calls.{gen}
use worldcoin_aggregation.System.Nodes.{Knows}
use worldcoin_aggregation.System.Proved.{gen-RootShows}
use worldcoin_aggregation.System.V1.Leaf.{prove-leaf}
use worldcoin_aggregation.System.V1.Halves.{ShowsV1, shown_claims, joinable}
use worldcoin_aggregation.System.V1.Node.{intermediate-ShowsV1, root-shown_hash}

module _ {Vk Root Claim : Type 0} (s : Setup Vk Root Claim) (t : Terms Root Claim) where
  -- The instances of a root proof: an accumulator and the hash of the key, the root, the number of
  -- claims and the claims.
  pub record RootShowsV1 (i k start end : ℕ) (claims : List Claim) (sn : Snark) : Type 0 where
    pub acc : List ℕ
    pub size : length acc ≡ s.aggregator.num_fe_accumulator
    pub hash : HiLo
    pub hashed :
        hash
        ≡ s.chip.keccak_fixed_len
            (preimage t.vk_hash t.root (end - start) (shown_claims s t i k claims))
    pub shape : sn ≡ aggregation_snark s.aggregator (acc ++ (hash.hi ∷ hash.lo ∷ []))

  module _ (chip : IsChip s.chip) (honest : IsHonest s t (prove s)) where
    pub leaf-ShowsV1 :
        (i start end : ℕ) (claims : List Claim)
        → start < end
        → end < u32_mod
        → end ≤ start + 2 ^ i
        → i ≤ 30
        → length claims ≡ end - start
        → All (IsGood s t) claims
        → (sn : Snark) × (prove s (RequestRouter.leaf (leaf_request_of s t start end i claims))
            ≡ ok sn)
          × ShowsV1 s t i 0 start end claims sn
    unfolding fill
    leaf-ShowsV1 i start end claims pos word fits low counted good =
        let proved =
          prove-leaf s t start end i claims chip honest pos word fits (omega arith) counted good in
        (
          _,
          proved,
          record {
            request = RequestRouter.leaf (leaf_request_of s t start end i claims);
            proved = proved;
            acc = [];
            size = refl;
            indices = positions-none;
            instances = refl;
          },
        )

    -- The provers of trees up to a depth for which the safe comparison has room.
    abbrev pub tree_prover_v1 : (deep : ℕ) → deep ≤ 30 → HasRoom s.chip deep → TreeProver Root Claim
    tree_prover_v1 deep bounded roomy = record {
      root_text = t.root_text;
      max_depth = deep;
      prove = prove s;
      IsGood = IsGood s t;
      Shows = ShowsV1 s t;
      RootShows = RootShowsV1;
      leaf_shows = λ i start end claims pos word fits low counted good.
          leaf-ShowsV1 i start end claims pos word fits (omega arith) counted good;
      node_shows = λ i k start end claims x y pos word low good halves.
          intermediate-ShowsV1 s t chip honest i k start end claims x y pos word (omega arith)
            (roomy (i + k) (omega arith)) (joinable s t i k start end claims x y pos word halves);
      root_shows = λ i k start end claims x y pos word low good halves.
          let (acc, size, proved) =
            root-shown_hash s t chip honest i k start end claims x y pos word (omega arith)
              (roomy (i + k) (omega arith)) (joinable s t i k start end claims x y pos word halves)
              good in
          (_, proved, record { acc = acc; size = size; hash = _; hashed = refl; shape = refl });
    }

  module _ {CircuitId EvmProof : Type 0} (circuit_id_repo : NodeParams → Option CircuitId)
      (get_evm_proof : CircuitId → WorldcoinRequestEvm → Result EvmProof) {top : NodeParams}
      (knows : Knows circuit_id_repo top) where
    -- If the chip has the laws of IsChip, the conditions of IsHonest hold (the key and the root
    -- of a batch are read and have the sizes that the circuits expect, the aggregator accepts the
    -- snarks that the prover makes and its accumulators have fewer than 2^32 cells), the safe
    -- comparison has room for the numbers of claims of a full tree of some depth D up to 30, and
    -- the table has the circuits of the nodes from top down: then for a valid request at a root
    -- node from top down, of depth at most D, with this root and with claims that are read and
    -- verify, and with fuel above the levels of the tree, the local scheduler over the V1
    -- factories and circuits returns a snark. Its instances are an accumulator and the hash of
    -- the key's hash, the root, the number of claims and 2^depth claims, which begin with those
    -- of the request, in order.
    pub gen-shown_hash :
        (fuel deep : ℕ) (req : RecursiveRequest Root Claim)
        → IsChip s.chip
        → HasRoom s.chip deep
        → deep ≤ 30
        → IsHonest s t (prove s)
        → IsValid req
        → req.params.node_type ≡ NodeType.root
        → Below top req.params
        → req.params.depth ≤ deep
        → req.root ≡ t.root_text
        → All (IsGood s t) req.claims
        → req.params.depth - req.params.initial_depth < fuel
        → (id : CircuitId) × (acc : List ℕ) × (shown : List ClaimInput) × (length acc
            ≡ s.aggregator.num_fe_accumulator)
          × (length shown ≡ 2 ^ req.params.depth)
          × (take (length req.claims) shown ≡ map t.read req.claims)
          × (gen (prove s) circuit_id_repo get_evm_proof fuel req
              ≡ ok (
                  ProverProof.snark id (
                    aggregation_snark s.aggregator (
                      acc
                      ++ hi_lo (
                          s.chip.keccak_fixed_len
                            (preimage t.vk_hash t.root (req.end - req.start) shown))))))
    gen-shown_hash fuel deep req chip roomy bounded honest v type down low same good l =
        let i = req.params.initial_depth in
        let k = req.params.depth - i in
        let (sn, id, made, shows) =
          gen-RootShows (tree_prover_v1 chip honest deep bounded roomy) circuit_id_repo
            get_evm_proof knows fuel req v type down low same good l in
        let above : i < req.params.depth =
          subst (λ ty. IsPlaced ty req.params.depth i) type v.placed in
        let up : i + k ≡ req.params.depth = omega arith in
        let len = length-map t.read req.claims in
        let few : length (map t.read req.claims) ≤ 2 ^ (i + k) =
          rw up (omega (arith, v.counted, v.fits)) in
        let some_claim : 0 < length (map t.read req.claims) =
          omega (arith, v.counted, v.nonempty) in
        (
          id,
          shows.acc,
          shown_claims s t i k req.claims,
          shows.size,
          length-fill i k (map t.read req.claims) some_claim few ∙ ap (λ d. 2 ^ d) up,
          ap (λ n. take n (shown_claims s t i k req.claims)) (sym len)
              ∙ take-fill i k (map t.read req.claims) some_claim few,
          made
              ∙ ap (λ sn. ok (ProverProof.snark id sn))
                  (shows.shape
                    ∙ ap (λ hash. aggregation_snark s.aggregator (shows.acc ++ hi_lo hash))
                        shows.hashed),
        )
