-- ===== src/Prover/Proofs.antt =====
-- The proofs of a prover whose caches are coherent.
use worldcoin_aggregation.Prelude.{
  ℕ, ◌≡◌, refl, inl, inr, none, some, Option, List, Result, ok, err, bail, panic, unsat, Bool-cases,
  Option-cases, Result-cases,
}
use worldcoin_aggregation.Prelude.Maps.{get}
use worldcoin_aggregation.Prelude.States.{Implements, bind-Implements, lift-Implements, ◌>>=◌}
use worldcoin_aggregation.Prover.{
  ProverLib, Disk, Call, invalid_input_context, build_circuit, in_world, get_snark, get_evm_proof,
  read_file, write_file, prove_evm, found_or,
}
use worldcoin_aggregation.Prover.Spec.{
  OnDisk, on_built, build_spec, snark_made, snark_spec, written, proof_made, evm_spec,
}
use worldcoin_aggregation.Prover.Coherent.{
  State, IsProverLib, IsCoherent, Over, get_srs-Implements, get_pinning-Implements,
  get_pk-Implements,
}

context-ok : {A : Type 0} (r : Result A) (a : A) → invalid_input_context r ≡ ok a → r ≡ ok a
context-ok (ok b) a e = e
context-ok (err (bail r)) a e = cc
context-ok (err (panic r)) a e = cc
context-ok (err unsat) a e = cc

module _ {CircuitId Request Srs Json Pinning Pk Params Circuit Snark FilePath World : Type 0}
    (lib : ProverLib CircuitId Request Srs Json Pinning Pk Params Circuit Snark FilePath World)
    (is : IsProverLib lib) where
  build_circuit-Implements :
      (disk : Disk FilePath World) (id : CircuitId) (req : Request)
      → Implements (Over lib is disk) (build_circuit lib id req) (build_spec lib id req)
  unfolding build_circuit build_spec
  build_circuit-Implements disk id req =
      bind-Implements _ _ (lib.read_pinning id) _ (get_pinning-Implements lib is disk id)
        (λ json read.
          bind-Implements _ _ (lib.parse_pinning json) _ (lift-Implements _) (λ pinning parsed.
            bind-Implements _ _ (lib.read_srs (lib.get_k pinning)) _
              (get_srs-Implements lib is disk _)
              (λ srs found.
                bind-Implements _ _ (invalid_input_context (lib.prover_circuit req pinning srs)) _
                  (lift-Implements _)
                  (λ circuit built.
                    bind-Implements _ _ (lib.read_pk id (lib.params circuit)) _
                      (get_pk-Implements lib is disk id _ (record {
                        json = json;
                        pinning = pinning;
                        read = read;
                        parsed = parsed;
                        shape =
                            is.pinned req pinning srs circuit
                              (context-ok (lib.prover_circuit req pinning srs) circuit built);
                      }))
                      (λ pk keyed. lift-Implements _)))))

  -- The caches do not change how a call ends and what it does outside, and stay coherent.
  abbrev pub Follows : {A : Type 0} → Call lib A → OnDisk lib A → State lib → Type 0
  Follows call spec s =
      ((call s).1 ≡ (spec s.disk).1)
      × ((call s).0.disk ≡ (spec s.disk).0)
      × IsCoherent lib is (call s).0

  -- The disk is outside of the caches.
  disk-IsCoherent :
      (s : State lib) (disk : Disk FilePath World)
      → IsCoherent lib is s
      → IsCoherent lib is (record s { disk = disk })
  disk-IsCoherent s disk inv = record {
    srs_file = inv.srs_file;
    pinning_file = inv.pinning_file;
    pk_file = inv.pk_file;
  }

  built-Follows :
      {A : Type 0} (id : CircuitId) (req : Request) (next : Srs × Pk × Circuit → Call lib A)
      (spec : Srs × Pk × Circuit → OnDisk lib A)
      → ((built : Srs × Pk × Circuit) (t : State lib)
          → IsCoherent lib is t
          → Follows (next built) (spec built) t)
      → (s : State lib) → IsCoherent lib is s
      → Follows (build_circuit lib id req >>= next) (on_built (build_spec lib id req) spec) s
  built-Follows id req next spec after s inv =
      let call = build_circuit-Implements s.disk id req in
      let ends = call.ends s (inv, refl) in
      let (coherent, same) = call.keeps s (inv, refl) in
      elim (Result-cases (build_spec lib id req)) [
        | inl (built, made) ↦
            let (a, b, c) = after built (build_circuit lib id req s).0 coherent in
            rw (ends, made) (rw same at a, rw same at b, c)
        | inr (e, failed) ↦ rw (ends, failed) (refl, same, coherent)
      ]

  -- If circuit ids are compared by equality, and the parameters of a circuit are those of the
  -- pinning that it is built from: on coherent caches get_snark ends as without caches, also when
  -- it fails, it leaves the proof files and the world of the library's prover, with its coins and
  -- the files of snarks, as they are left without caches, and it leaves the caches coherent.
  pub get_snark-snark_spec :
      (id : CircuitId) (req : Request) (s : State lib)
      → IsCoherent lib is s
      → ((get_snark lib id req s).1 ≡ (snark_spec lib id req s.disk).1)
        × ((get_snark lib id req s).0.disk ≡ (snark_spec lib id req s.disk).0)
        × IsCoherent lib is (get_snark lib id req s).0
  unfolding get_snark snark_spec in_world
  get_snark-snark_spec id req s inv =
      built-Follows id req
        (λ built. in_world lib (lib.gen_snark built.0 built.1 built.2 (lib.snark_path id req)))
        (snark_made lib id req) (λ built t coherent. (refl, refl, disk-IsCoherent t _ coherent)) s
        inv

  -- A result of the library's prover is written to its file.
  write_file-Follows :
      (path : Option FilePath) (r : Result (List ℕ)) (t : State lib)
      → IsCoherent lib is t
      → Follows
          ((λ (u : State lib). (u, r)) >>= write_file lib path)
          (λ (d : Disk FilePath World). written lib path (d, r))
          t
  unfolding write_file
  write_file-Follows none (ok proof) t inv = (refl, refl, inv)
  write_file-Follows none (err e) t inv = (refl, refl, inv)
  write_file-Follows (some path) (err e) t inv = (refl, refl, inv)
  write_file-Follows (some path) (ok proof) t inv = elim (Bool-cases (lib.writable path)) [
    | inl can ↦ rw can (refl, refl, disk-IsCoherent t _ inv)
    | inr not_allowed ↦ rw not_allowed (refl, refl, inv)
  ]

  prove_evm-Follows :
      (id : CircuitId) (req : Request) (s : State lib)
      → IsCoherent lib is s
      → Follows (prove_evm lib id req) (on_built (build_spec lib id req) (proof_made lib id req)) s
  unfolding prove_evm in_world
  prove_evm-Follows id req s inv =
      let path = lib.evm_proof_path id req in
      built-Follows id req
        (λ built. in_world lib (lib.gen_evm_proof built.0 built.1 built.2) >>= write_file lib path)
        (proof_made lib id req)
        (λ built t coherent.
          let (world, result) = lib.gen_evm_proof built.0 built.1 built.2 t.disk.world in
          let disk = record t.disk { world = world } in
          write_file-Follows path result (record t { disk = disk })
            (disk-IsCoherent t disk coherent))
        s inv

  -- If circuit ids are compared by equality, and the parameters of a circuit are those of the
  -- pinning that it is built from: on coherent caches get_evm_proof ends as without caches,
  -- whether it finds the proof in a file, makes it or fails, also to write it, it leaves the
  -- proof files and the world of the library's prover, with its coins, as they are left without
  -- caches, and it leaves the caches coherent.
  pub get_evm_proof-evm_spec :
      (id : CircuitId) (req : Request) (s : State lib)
      → IsCoherent lib is s
      → ((get_evm_proof lib id req s).1 ≡ (evm_spec lib id req s.disk).1)
        × ((get_evm_proof lib id req s).0.disk ≡ (evm_spec lib id req s.disk).0)
        × IsCoherent lib is (get_evm_proof lib id req s).0
  unfolding get_evm_proof found_or read_file evm_spec
  get_evm_proof-evm_spec id req s inv =
      let make = prove_evm-Follows id req s inv in
      elim (Option-cases (lib.evm_proof_path id req)) [
        | inl nowhere ↦ rw nowhere make
        | inr (path, at_path) ↦ elim (Option-cases (get lib.same_path path s.disk.files)) [
          | inl missing ↦ rw (at_path, missing) make
          | inr (proof, held) ↦ rw (at_path, held) (refl, refl, inv)
        ]
      ]
