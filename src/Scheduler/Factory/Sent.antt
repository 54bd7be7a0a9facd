-- ===== src/Scheduler/Factory/Sent.antt =====
-- From the claims of a leaf request, as they are sent, to the input of the leaf circuit.
use worldcoin_aggregation.Prelude.{
  ℕ, ◌-◌, ◌<◌, ◌≡◌, refl, sym, ◌∙◌, Option, some, List, ◌++◌, Result, ok, err, or_fault-ok,
  ok-injective, traverse-get, get-take, get_elem?, ◌>>=◌, >>=-eq-ok,
}
use worldcoin_aggregation.Prelude.Words.{u32_mod}
use worldcoin_aggregation.Circuits.Claims.{ClaimInput, WorldcoinLeafInput}
use worldcoin_aggregation.Scheduler.Contract.{ClaimNative}
use worldcoin_aggregation.Scheduler.Local.{WorldcoinRequestLeaf}
use worldcoin_aggregation.Scheduler.Factory.{build_leaf}
use worldcoin_aggregation.Scheduler.Factory.Inputs.{build_leaf-IsLeafInput}
use worldcoin_aggregation.Scheduler.Factory.Native.{
  Codec, PfFile, Groth16Proof, Reads, words, get_pf_string, parse_proof, claim_input, read_field,
  to_option, native_parsers, parse_proof-get_pf_string,
}

to_option-some : {A : Type 0} (r : Result A) {a : A} → to_option r ≡ some a → r ≡ ok a
to_option-some (ok b) h = cc
to_option-some (err e) h = cc

module _ {Text Address Point Pair : Type 0} (codec : Codec Text Address Point Pair) where
  -- A claim with the proof `g`, as the circuit takes it.
  pub record IsClaim (claim : ClaimNative Text Address) (proof_bytes : List ℕ) (input : ClaimInput)
      : Type 0 where
    pub receiver : input.receiver ≡ codec.encode_addr_to_field claim.receiver
    pub nullifier_hash :
        read_field codec codec.fe_from_big claim.nullifier_hash ≡ ok input.nullifier_hash
    pub grant_id : read_field codec codec.fe_from_big claim.grant_id ≡ ok input.grant_id
    pub proof : input.proof_bytes ≡ proof_bytes

  claim_input-IsClaim :
      (claim : ClaimNative Text Address) (bytes : List ℕ) {input : ClaimInput}
      → (get_pf_string codec claim.proof >>= parse_proof codec) ≡ ok bytes
      → claim_input codec claim ≡ ok input
      → IsClaim claim bytes input
  unfolding claim_input
  claim_input-IsClaim claim bytes read e =
      let (text, printed, e1) = >>=-eq-ok (get_pf_string codec claim.proof) _ e in
      let (proof_bytes, parsed, e2) = >>=-eq-ok (parse_proof codec text) _ e1 in
      let (hash, e_hash, e3) =
        >>=-eq-ok (read_field codec codec.fe_from_big claim.nullifier_hash) _ e2 in
      let (id, e_id, e4) = >>=-eq-ok (read_field codec codec.fe_from_big claim.grant_id) _ e3 in
      let shape = ok-injective e4 in
      let same : parse_proof codec text ≡ ok bytes = rw printed at read in
      rw (← shape) (record {
        receiver = refl;
        nullifier_hash = e_hash;
        grant_id = e_id;
        proof = ok-injective (sym parsed ∙ same);
      })

  -- If the build of a leaf request whose claims are read as they are sent ends with an input, for
  -- a depth below 32 and an end below 2^32, and the claim at a position has the words of a
  -- Groth16 proof, with any texts after them, the JSON of any proof object is read back as it is,
  -- and the texts of the points can be read: the input has at this position the receiver, the
  -- nullifier hash and the grant id of the claim, and the points of the proof, flattened.
  pub build_leaf-IsClaim :
      {Vk : Type 0} (parse_vk : Vk → ℕ → Option (List ℕ)) (vk : Vk)
      (request : WorldcoinRequestLeaf Text (ClaimNative Text Address)) {input : WorldcoinLeafInput}
      (i : ℕ) (claim : ClaimNative Text Address) (g : Groth16Proof Text) (more : List Text)
      (a : Point) (b : Pair) (c : Point)
      → request.depth < 32
      → request.end < u32_mod
      → build_leaf (native_parsers codec parse_vk) vk request ≡ ok input
      → get_elem? request.claims i ≡ some claim
      → claim.proof ≡ words g ++ more
      → ((file : PfFile Text) → codec.read_json (codec.print_json file) ≡ some file)
      → Reads codec g a b c
      → (shown : ClaimInput) × (get_elem? input.claims i ≡ some shown)
        × IsClaim claim (codec.flatten_vec a b c) shown
  build_leaf-IsClaim parse_vk vk request {input} i claim g more a b c small word built at_i laid
        json reads =
      let (nonempty, fits, leaf) =
        build_leaf-IsLeafInput (native_parsers codec parse_vk) vk request small word built in
      let (shown, made, at_same) = traverse-get _ request.claims i leaf.read at_i in
      let read = to_option-some (claim_input codec claim) (or_fault-ok _ _ made) in
      let bytes = parse_proof-get_pf_string codec g more a b c json reads in
      (
        shown,
        get-take (request.end - request.start) input.claims i (rw leaf.range at_same),
        claim_input-IsClaim claim (codec.flatten_vec a b c) (rw laid bytes) read,
      )
