-- ===== src/Prover/Again.antt =====
-- A proof that is made is found again.
use worldcoin_aggregation.Prelude.{
  ℕ, ◌≡◌, refl, inl, inr, some, List, ok, Bool-cases, Option-cases, Result-cases, ok-injective,
}
use worldcoin_aggregation.Prelude.Maps.{IsTest, get, get-put}
use worldcoin_aggregation.Prelude.States.{Action, ◌>>=◌}
use worldcoin_aggregation.Prover.{
  ProverLib, build_circuit, in_world, get_evm_proof, read_file, write_file, prove_evm, found_or,
}
use worldcoin_aggregation.Prover.Coherent.{State}

-- A call that ended with a value made its first step, and then the rest.
pub run-eq-ok :
    {S A B : Type 0} (first : Action S A) (next : A → Action S B) (s : S) {b : B}
    → ((first >>= next) s).1 ≡ ok b
    → (a : A) × ((first >>= next) s ≡ next a (first s).0)
run-eq-ok first next s e = elim (Result-cases (first s).1) [
  | inl (a, first_ok) ↦ (a, rw first_ok refl)
  | inr (fault, failed) ↦ let bad = rw failed at e in cc
]

module _ {CircuitId Request Srs Json Pinning Pk Params Circuit Snark FilePath World : Type 0}
    (lib : ProverLib CircuitId Request Srs Json Pinning Pk Params Circuit Snark FilePath World)
    (is_path : IsTest lib.same_path) where
  write_file-held :
      (path : FilePath) (text proof : List ℕ) (s : State lib)
      → (write_file lib (some path) text s).1 ≡ ok proof
      → get lib.same_path path (write_file lib (some path) text s).0.disk.files ≡ some proof
  unfolding write_file
  write_file-held path text proof s e = elim (Bool-cases (lib.writable path)) [
    | inl can ↦
        let value = ok-injective (rw can at e) in
        rw (can, ← value) (get-put lib.same_path path text s.disk.files is_path)
    | inr not_allowed ↦ let bad = rw not_allowed at e in cc
  ]

  prove_evm-held :
      (id : CircuitId) (req : Request) (path : FilePath) (s : State lib) {proof : List ℕ}
      → lib.evm_proof_path id req ≡ some path
      → (prove_evm lib id req s).1 ≡ ok proof
      → get lib.same_path path (prove_evm lib id req s).0.disk.files ≡ some proof
  unfolding prove_evm
  prove_evm-held id req path s {proof} at_path e =
      let write = λ (b : Srs × Pk × Circuit).
        in_world lib (lib.gen_evm_proof b.0 b.1 b.2)
        >>= write_file lib (lib.evm_proof_path id req) in
      let (built, made) = run-eq-ok (build_circuit lib id req) write s e in
      let prove = in_world lib (lib.gen_evm_proof built.0 built.1 built.2) in
      let t = (build_circuit lib id req s).0 in
      let proving : ((prove >>= write_file lib (lib.evm_proof_path id req)) t).1 ≡ ok proof =
        rw (← made) e in
      let (text, proved) = run-eq-ok prove (write_file lib (lib.evm_proof_path id req)) t proving in
      let written : (write_file lib (some path) text (prove t).0).1 ≡ ok proof =
        rw (← at_path) (rw (← proved) proving) in
      rw (made, proved, at_path) (write_file-held path text proof (prove t).0 written)

  -- If paths are compared by equality, and get_evm_proof returns a proof for a request that has a
  -- proof file, the same request in the state that it leaves returns the same proof and does not
  -- change the state, whatever is in the caches.
  pub get_evm_proof-again :
      (id : CircuitId) (req : Request) (path : FilePath) (s : State lib) {proof : List ℕ}
      → lib.evm_proof_path id req ≡ some path
      → (get_evm_proof lib id req s).1 ≡ ok proof
      → get_evm_proof lib id req (get_evm_proof lib id req s).0
        ≡ ((get_evm_proof lib id req s).0, ok proof)
  unfolding get_evm_proof found_or read_file
  get_evm_proof-again id req path s {proof} at_path e =
      elim (Option-cases (get lib.same_path path s.disk.files)) [
        | inl missing ↦
            let proved =
              prove_evm-held id req path s {proof = proof} at_path (rw (at_path, missing) at e) in
            rw (at_path, missing) (rw proved refl)
        | inr (text, held) ↦
            let value = ok-injective (rw (at_path, held) at e) in
            rw (at_path, held) (rw (held, value) refl)
      ]
