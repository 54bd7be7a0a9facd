-- ===== src/Prover/Spec.antt =====
-- A prover without caches: every file that describes a circuit is read again, and only the proofs of
-- the output directory and the world of the library's provers are kept.
use worldcoin_aggregation.Prelude.{
  List, ℕ, Option, none, some, Result, ok, err, bail, Reason, if◌then◌else◌, ◌>>=◌,
}
use worldcoin_aggregation.Prelude.Maps.{get, put}
use worldcoin_aggregation.Prover.{ProverLib, Disk, invalid_input_context}

-- Continue with the circuit, if it can be built.
abbrev pub on_built : {D B A : Type 0} → Result B → (B → D → D × Result A) → D → D × Result A
on_built (ok built) next d = next built d
on_built (err e) next d = (d, err e)

module _ {CircuitId Request Srs Json Pinning Pk Params Circuit Snark FilePath World : Type 0}
    (lib : ProverLib CircuitId Request Srs Json Pinning Pk Params Circuit Snark FilePath
      World) where
  unfoldable pub build_spec : CircuitId → Request → Result (Srs × Pk × Circuit)
  build_spec circuit_id req = do
    json ← lib.read_pinning circuit_id
    pinning ← lib.parse_pinning json
    srs ← lib.read_srs (lib.get_k pinning)
    circuit ← invalid_input_context (lib.prover_circuit req pinning srs)
    pk ← lib.read_pk circuit_id (lib.params circuit)
    ok (srs, pk, circuit)

  -- A prover that changes what is outside.
  abbrev pub OnDisk : Type 0 → Type 0
  OnDisk A = Disk FilePath World → Disk FilePath World × Result A

  abbrev pub snark_made : CircuitId → Request → Srs × Pk × Circuit → OnDisk Snark
  snark_made circuit_id req built d =
      let (world, result) =
        lib.gen_snark built.0 built.1 built.2 (lib.snark_path circuit_id req) d.world in
      (record d { world = world }, result)

  unfoldable pub snark_spec : CircuitId → Request → OnDisk Snark
  snark_spec circuit_id req d = on_built (build_spec circuit_id req) (snark_made circuit_id req) d

  -- A proof that is made is written to its file.
  abbrev pub written :
      Option FilePath
      → Disk FilePath World × Result (List ℕ)
      → Disk FilePath World × Result (List ℕ)
  written none (d, result) = (d, result)
  written (some path) (d, err e) = (d, err e)
  written (some path) (d, ok proof) =
      if lib.writable path
      then (record d { files = put path proof d.files }, ok proof)
      else (d, err (bail Reason.file_not_found))

  abbrev pub proof_made : CircuitId → Request → Srs × Pk × Circuit → OnDisk (List ℕ)
  proof_made circuit_id req built d =
      let (world, result) = lib.gen_evm_proof built.0 built.1 built.2 d.world in
      written (lib.evm_proof_path circuit_id req) (record d { world = world }, result)

  -- A proof that is kept, or else one that is made.
  abbrev pub kept_or : Option (List ℕ) → OnDisk (List ℕ) → OnDisk (List ℕ)
  kept_or (some proof) make d = (d, ok proof)
  kept_or none make d = make d

  abbrev pub kept : Option FilePath → Disk FilePath World → Option (List ℕ)
  kept none d = none
  kept (some path) d = get lib.same_path path d.files

  unfoldable pub evm_spec : CircuitId → Request → OnDisk (List ℕ)
  evm_spec circuit_id req d =
      kept_or (kept (lib.evm_proof_path circuit_id req) d)
        (on_built (build_spec circuit_id req) (proof_made circuit_id req)) d
