-- ===== src/Prover/Server.antt =====
-- circuit/src/bin/prover_server.rs: the request handlers of the prover server; and the status that
-- circuit/src/types.rs gives to an error.
use worldcoin_aggregation.Prelude.{
  ℕ, ◌≡◌, refl, Bool, true, false, List, Result, ok, err, bail, panic, unsat, Reason, Fault, inl,
  inr, Result-cases,
}
use worldcoin_aggregation.Prelude.States.{Action, return, ◌>>=◌}
use worldcoin_aggregation.Scheduler.Local.{RequestRouter, ProverProof}
use worldcoin_aggregation.Prover.Spec.{OnDisk, snark_spec, evm_spec}
use worldcoin_aggregation.Prover.Proofs.{Follows, get_snark-snark_spec, get_evm_proof-evm_spec}
use worldcoin_aggregation.Prover.{ProverLib, Call, build_circuit, get_snark, get_evm_proof}
use worldcoin_aggregation.Prover.Coherent.{State, IsProverLib, IsCoherent}
use worldcoin_aggregation.Circuits.Snarks.{Snark}

-- `unwrap` of a result.
abbrev pub unwrap_result : {A : Type 0} → Result A → Result A
unwrap_result (ok a) = ok a
unwrap_result (err (bail r)) = err (panic Reason.unwrap_none)
unwrap_result (err (panic r)) = err (panic r)
unwrap_result (err unsat) = err (panic Reason.unwrap_none)

abbrev pub unwrapped : {S A : Type 0} → Action S A → Action S A
unwrapped call s = ((call s).0, unwrap_result (call s).1)

-- The status of the response to a call that fails; a panic is answered by the server's own 500.
unfoldable pub status_of : Fault → ℕ
status_of (bail Reason.invalid_input) = 400
status_of e = 500

module _ {Root Claim CircuitId Srs Json Pinning Pk Params Circuit FilePath World : Type 0}
    (lib : ProverLib CircuitId
      (RequestRouter Root Claim)
      Srs
      Json
      Pinning
      Pk
      Params
      Circuit
      Snark
      FilePath
      World) where
  -- `return_snark`
  unfoldable pub return_snark :
      CircuitId → RequestRouter Root Claim → Call lib (ProverProof CircuitId (List ℕ))
  return_snark circuit_id request = do
    inner ← unwrapped (get_snark lib circuit_id request)
    return (ProverProof.snark circuit_id inner)

  unfoldable pub return_evm :
      CircuitId → RequestRouter Root Claim → Call lib (ProverProof CircuitId (List ℕ))
  return_evm circuit_id request = do
    proof ← unwrapped (get_evm_proof lib circuit_id request)
    return (ProverProof.evm_proof proof)

  -- `serve`
  unfoldable pub serve :
      CircuitId → RequestRouter Root Claim → Bool → Call lib (ProverProof CircuitId (List ℕ))
  serve circuit_id (RequestRouter.evm request) true =
      return_evm circuit_id (RequestRouter.evm request)
  serve circuit_id (RequestRouter.evm request) false =
      return_snark circuit_id (RequestRouter.evm request)
  serve circuit_id (RequestRouter.leaf request) is_evm_proof =
      return_snark circuit_id (RequestRouter.leaf request)
  serve circuit_id (RequestRouter.intermediate request) is_evm_proof =
      return_snark circuit_id (RequestRouter.intermediate request)
  serve circuit_id (RequestRouter.root request) is_evm_proof =
      return_snark circuit_id (RequestRouter.root request)

  -- `load_circuit_data`
  unfoldable pub load_circuit_data : CircuitId → RequestRouter Root Claim → Call lib (Unit {0})
  load_circuit_data circuit_id request = do built ← build_circuit lib circuit_id request; return tt

-- What the server would answer without caches.
abbrev pub answer : {D A B : Type 0} → (A → B) → D × Result A → D × Result B
answer f (d, ok a) = (d, ok (f a))
answer f (d, err (bail r)) = (d, err (panic Reason.unwrap_none))
answer f (d, err (panic r)) = (d, err (panic r))
answer f (d, err unsat) = (d, err (panic Reason.unwrap_none))

module _ {Root Claim CircuitId Srs Json Pinning Pk Params Circuit FilePath World : Type 0}
    (lib : ProverLib CircuitId
      (RequestRouter Root Claim)
      Srs
      Json
      Pinning
      Pk
      Params
      Circuit
      Snark
      FilePath
      World) where
  unfoldable pub serve_spec :
      CircuitId → RequestRouter Root Claim → Bool → OnDisk lib (ProverProof CircuitId (List ℕ))
  serve_spec id (RequestRouter.evm request) true d =
      answer ProverProof.evm_proof (evm_spec lib id (RequestRouter.evm request) d)
  serve_spec id (RequestRouter.evm request) false d =
      answer (ProverProof.snark id) (snark_spec lib id (RequestRouter.evm request) d)
  serve_spec id (RequestRouter.leaf request) is_evm_proof d =
      answer (ProverProof.snark id) (snark_spec lib id (RequestRouter.leaf request) d)
  serve_spec id (RequestRouter.intermediate request) is_evm_proof d =
      answer (ProverProof.snark id) (snark_spec lib id (RequestRouter.intermediate request) d)
  serve_spec id (RequestRouter.root request) is_evm_proof d =
      answer (ProverProof.snark id) (snark_spec lib id (RequestRouter.root request) d)

  module _ (is : IsProverLib lib) where
    unwrapped-answer :
        {A B : Type 0} (call : Call lib A) (f : A → B) (spec : OnDisk lib A) (s : State lib)
        → Follows lib is call spec s
        → Follows lib is ((unwrapped call) >>= λ a. return (f a)) (λ d. answer f (spec d)) s
    unwrapped-answer call f spec s (e, same, kept) = elim (Result-cases (spec s.disk).1) [
      | inl (a, made) ↦ rw (e, made) (refl, same, kept)
      | inr (bail r, failed) ↦ rw (e, failed) (refl, same, kept)
      | inr (panic r, failed) ↦ rw (e, failed) (refl, same, kept)
      | inr (unsat, failed) ↦ rw (e, failed) (refl, same, kept)
    ]

    return_snark-answer :
        (id : CircuitId) (request : RequestRouter Root Claim) (s : State lib)
        → IsCoherent lib is s
        → Follows lib is
            (return_snark lib id request)
            (λ d. answer (ProverProof.snark id) (snark_spec lib id request d))
            s
    unfolding return_snark
    return_snark-answer id request s inv =
        unwrapped-answer (get_snark lib id request) (ProverProof.snark id)
          (snark_spec lib id request) s (get_snark-snark_spec lib is id request s inv)

    -- If circuit ids are compared by equality, and the parameters of a circuit are those of the
    -- pinning that it is built from: on coherent caches the handler of the prover server answers
    -- a task by an EVM proof if the request is for an EVM node and an EVM proof is asked for, and
    -- else by a snark, as a prover without caches would; an error of the prover becomes a panic;
    -- and what is outside is left as without caches, and the caches coherent.
    pub serve-serve_spec :
        (id : CircuitId) (request : RequestRouter Root Claim) (is_evm_proof : Bool) (s : State lib)
        → IsCoherent lib is s
        → ((serve lib id request is_evm_proof s).1 ≡ (serve_spec id request is_evm_proof s.disk).1)
          × ((serve lib id request is_evm_proof s).0.disk
              ≡ (serve_spec id request is_evm_proof s.disk).0)
          × IsCoherent lib is (serve lib id request is_evm_proof s).0
    unfolding serve serve_spec return_evm
    serve-serve_spec id (RequestRouter.evm request) true s inv =
        unwrapped-answer (get_evm_proof lib id (RequestRouter.evm request)) ProverProof.evm_proof
          (evm_spec lib id (RequestRouter.evm request)) s
          (get_evm_proof-evm_spec lib is id (RequestRouter.evm request) s inv)
    serve-serve_spec id (RequestRouter.evm request) false s inv =
        return_snark-answer id (RequestRouter.evm request) s inv
    serve-serve_spec id (RequestRouter.leaf request) is_evm_proof s inv =
        return_snark-answer id (RequestRouter.leaf request) s inv
    serve-serve_spec id (RequestRouter.intermediate request) is_evm_proof s inv =
        return_snark-answer id (RequestRouter.intermediate request) s inv
    serve-serve_spec id (RequestRouter.root request) is_evm_proof s inv =
        return_snark-answer id (RequestRouter.root request) s inv
