-- ===== src/Prover.antt =====
-- circuit/src/prover/mod.rs: the state of a prover, its caches of the files that describe a circuit, and
-- the directory where it keeps the EVM proofs. The files, the construction of a circuit and the
-- proof system are parameters. The mutex on proving is held throughout get_snark and
-- get_evm_proof, so their steps follow each other. The library's provers read and write a world of
-- their own, in which they find their random coins and the files of snarks, and they may panic.
pub mod Spec
pub mod Coherent
pub mod Proofs
pub mod Again
pub mod Server
use worldcoin_aggregation.Prelude.{
  ℕ, Bool, Option, none, some, List, [], Result, ok, err, bail, panic, unsat, Reason, if◌then◌else◌,
  ◌==◌,
}
use worldcoin_aggregation.Prelude.Maps.{HashMap, get, put}
use worldcoin_aggregation.Prelude.States.{Action, lift, return, ◌>>=◌}

-- What is outside. `read_srs`, `read_pinning` and `read_pk` read a file; `prover_circuit` and
-- `get_k` are those of the request's circuit.
pub record ProverLib
    (CircuitId Request Srs Json Pinning Pk Params Circuit Snark FilePath World : Type 0)
    : Type 0 where
  pub read_srs : ℕ → Result Srs
  pub read_pinning : CircuitId → Result Json
  pub read_pk : CircuitId → Params → Result Pk
  pub parse_pinning : Json → Result Pinning
  pub get_k : Pinning → ℕ
  pub prover_circuit : Request → Pinning → Srs → Result Circuit
  pub params : Circuit → Params
  pub gen_snark : Srs → Pk → Circuit → Option FilePath → World → World × Result Snark
  pub gen_evm_proof : Srs → Pk → Circuit → World → World × Result (List ℕ)
  pub snark_path : CircuitId → Request → Option FilePath
  pub evm_proof_path : CircuitId → Request → Option FilePath
  pub writable : FilePath → Bool
  pub same_id : CircuitId → CircuitId → Bool
  pub same_path : FilePath → FilePath → Bool

-- The EVM proofs of the output directory, and the world of the library's provers.
pub record Disk (FilePath World : Type 0) : Type 0 where
  pub files : HashMap FilePath (List ℕ)
  pub world : World

-- `ProvingServerState`, with what is outside of it.
pub record ProvingServerState (CircuitId Srs Json Pk FilePath World : Type 0) : Type 0 where
  pub srs : HashMap ℕ Srs
  pub pinning : HashMap CircuitId Json
  pub pk : HashMap CircuitId Pk
  pub disk : Disk FilePath World

-- A value of a cache; a missing one is read and stored.
unfoldable pub cached : {S V : Type 0} → Option V → Result V → (V → S → S) → Action S V
cached (some v) read store s = (s, ok v)
cached none (ok v) store s = (store v s, ok v)
cached none (err e) store s = (s, err e)

-- `.context(InvalidInputContext)`
abbrev pub invalid_input_context : {A : Type 0} → Result A → Result A
invalid_input_context (ok a) = ok a
invalid_input_context (err (bail r)) = err (bail Reason.invalid_input)
invalid_input_context (err (panic r)) = err (panic r)
invalid_input_context (err unsat) = err (bail Reason.invalid_input)

module _ {CircuitId Srs Json Pk FilePath World : Type 0} where
  -- `ProvingServerState::new`, over the files that are there.
  unfoldable pub new : Disk FilePath World → ProvingServerState CircuitId Srs Json Pk FilePath World
  new disk = record { srs = []; pinning = []; pk = []; disk = disk }

  -- `reset`
  unfoldable pub reset :
      ProvingServerState CircuitId Srs Json Pk FilePath World
      → ProvingServerState CircuitId Srs Json Pk FilePath World
  reset s = record s { srs = []; pinning = []; pk = [] }

module _ {CircuitId Request Srs Json Pinning Pk Params Circuit Snark FilePath World : Type 0}
    (lib : ProverLib CircuitId Request Srs Json Pinning Pk Params Circuit Snark FilePath
      World) where
  -- A call on the state of the prover.
  abbrev pub Call : Type 0 → Type 0
  Call A = Action (ProvingServerState CircuitId Srs Json Pk FilePath World) A

  unfoldable pub get_srs : ℕ → Call Srs
  get_srs k s =
      cached (get ◌==◌ k s.srs) (lib.read_srs k) (λ v t. record t { srs = put k v t.srs }) s

  unfoldable pub get_pinning : CircuitId → Call Json
  get_pinning circuit_id s =
      cached (get lib.same_id circuit_id s.pinning) (lib.read_pinning circuit_id)
        (λ v t. record t { pinning = put circuit_id v t.pinning }) s

  -- The proving key, in `build_circuit`.
  unfoldable pub get_pk : CircuitId → Params → Call Pk
  get_pk circuit_id params s =
      cached (get lib.same_id circuit_id s.pk) (lib.read_pk circuit_id params)
        (λ v t. record t { pk = put circuit_id v t.pk }) s

  unfoldable pub build_circuit : CircuitId → Request → Call (Srs × Pk × Circuit)
  build_circuit circuit_id req = do
    pinning_json ← get_pinning circuit_id
    pinning ← lift (lib.parse_pinning pinning_json)
    kzg_params ← get_srs (lib.get_k pinning)
    circuit ← lift (invalid_input_context (lib.prover_circuit req pinning kzg_params))
    pk ← get_pk circuit_id (lib.params circuit)
    return (kzg_params, pk, circuit)

  -- A prover of the library, in its world.
  unfoldable pub in_world : {A : Type 0} → (World → World × Result A) → Call A
  in_world call s =
      let (world, result) = call s.disk.world in
      (record s { disk = record s.disk { world = world } }, result)

  unfoldable pub get_snark : CircuitId → Request → Call Snark
  get_snark circuit_id req = do
    built ← build_circuit circuit_id req
    in_world (lib.gen_snark built.0 built.1 built.2 (lib.snark_path circuit_id req))

  -- `fs::read_to_string`
  unfoldable pub read_file : Option FilePath → HashMap FilePath (List ℕ) → Option (List ℕ)
  read_file none files = none
  read_file (some path) files = get lib.same_path path files

  -- `fs::write`
  unfoldable pub write_file : Option FilePath → List ℕ → Call (List ℕ)
  write_file none proof s = (s, ok proof)
  write_file (some path) proof s =
      if lib.writable path
      then (record s { disk = record s.disk { files = put path proof s.disk.files } }, ok proof)
      else (s, err (bail Reason.file_not_found))

  unfoldable pub prove_evm : CircuitId → Request → Call (List ℕ)
  prove_evm circuit_id req = do
    built ← build_circuit circuit_id req
    proof ← in_world (lib.gen_evm_proof built.0 built.1 built.2)
    write_file (lib.evm_proof_path circuit_id req) proof

  -- An EVM proof that is found in the output directory, or else made.
  unfoldable pub found_or : Option (List ℕ) → Call (List ℕ) → Call (List ℕ)
  found_or (some proof) make s = (s, ok proof)
  found_or none make s = make s

  unfoldable pub get_evm_proof : CircuitId → Request → Call (List ℕ)
  get_evm_proof circuit_id req s =
      found_or (read_file (lib.evm_proof_path circuit_id req) s.disk.files)
        (prove_evm circuit_id req) s
