-- ===== src/Lib.antt =====
-- Batch verification of World ID proofs: the circuits that aggregate the proofs of grant claims and
-- the scheduler that breaks a request down into them (circuit/src).
--
-- A request asks for a proof of the claims [start, end). The leaf circuits verify the Groth16 proofs
-- of 2^initial_depth claims, the intermediate circuits join two proofs of the depth below, and the
-- root circuit joins the last two and shows what the contract reads: in V1 a Keccak hash over all
-- claims, in V2 the Merkle root of the claims. A proof for fewer claims than there is room for is
-- padded: in V1 by repeated claims, in V2 by empty ones, and a missing second half by a dummy proof,
-- a copy of the first. EVM nodes wrap the root proof. The scheduler turns a request into the requests
-- for the two halves, proves them first and hands their snarks to the circuit above.
--
-- Files:
--   Prelude        shared names: tests, lists with native indices, the results of fallible code,
--                  machine words (u32, u64 and usize as release builds compute them: sums and
--                  differences wrap around, a shift takes its amount modulo the width)
--   Halo2          the chips outside the repository that the circuits are built from, as a record of
--                  functions (Chip) and the laws that the circuits rely on (IsChip); Bytes: big-endian
--                  bytes; Laws: consequences of the laws
--   Circuits       Utils, Merkle: circuit/src/utils.rs and constants.rs (get_vk_hash, the Keccak
--                  Merkle tree, DUMMY_CLAIM_ROOTS)
--                  Claims: the input of the leaf circuits and the constraints that both versions share
--                  Shared: check_and_join_shared_instances of circuits/v1/intermediate.rs
--                  Snarks: the old accumulators and their removal
--                  V1/Leaf, V1/Intermediate, V1/Root: circuits/v1; V1/Batch, V1/Tree, V1/Root/Output:
--                  what their proofs show
--                  V2/Leaf, V2/Intermediate, V2/Root: circuits/v2; V2/Leaf/Leaves, V2/Padding,
--                  V2/Roots, V2/ClaimTrees, V2/Tree: what their proofs show
--   Scheduler      NodeParams: keygen/node_params.rs; Request: scheduler/recursive_request.rs; Local:
--                  scheduler/mod.rs with scheduler/local_scheduler.rs; Factory: circuit_factory and
--                  WorldcoinLeafInput::new; Factory/Native: get_pf_string and parse_proof of types.rs
--                  and the reading of a claim; Factory/Sent: what is shown of them together; Server:
--                  the handler of bin/local_server.rs; Async: scheduler/async_scheduler.rs and
--                  task_tracker.rs; Executor: scheduler/executor/dispatcher.rs; Startup, Fulfil:
--                  bin/scheduler_server.rs; Contract: V1ClaimParams::new of
--                  scheduler/contract_client.rs
--   Keygen         keygen/mod.rs: the keys of the nodes of a tree and the table of circuit ids; Served:
--                  from this table to the proofs of the scheduler server; Circuits: the inputs of the
--                  circuits for which keys are made
--   Prover         prover/mod.rs: the caches and the proof files of a prover; Server:
--                  bin/prover_server.rs
--   System         the scheduler over the factories and the circuits of V1 and V2, from a request to
--                  the instances of its root proof. Tree: what the scheduler needs of the circuits of a
--                  tree, as a record (TreeProver); Nodes, Proved, Runs: what the local and the
--                  asynchronous scheduler return for any such circuits; V1, V2: their circuits fill
--                  the record; Honest: when a prover is expected to succeed; Fill: which claims a
--                  padded tree shows
--   Tests          a concrete chip, aggregator and scheduler, and the theorems applied to them
--
-- How the model corresponds to the code. A call ends in a value, in `bail` (an Err), in `panic` (a
-- failed assertion, unwrap or unreachable!), or in `unsat`, when the constraints that it adds are not
-- satisfied by the witness. An assigned cell is its value, a number below the modulus p of the scalar
-- field, so that loading a witness or a constant is the identity; a constraint is a Boolean. So a
-- theorem about a circuit's virtual_assign_phase0 that returns instances is a theorem about every
-- witness that satisfies the constraints. The accepted proofs of a tree (Accepted, AcceptedV2) are
-- those whose instances some circuit of that depth shows: that a verified snark satisfies its circuit
-- is the soundness of the proof system and is not modelled. The keys, the parameters of the polynomial
-- commitment, break points and logging are left out. The number of public inputs given to the Groth16
-- component is a witness that the circuits leave free, as they do the proofs; what the component
-- accepts is part of the parameter Chip. The V2 theorems assume that the fields of the claims are
-- field elements (InField), as cells are. A V1 leaf is accepted with 2^depth claims, the number of its
-- instance cells and what WorldcoinLeafInput::new makes; the V2 leaf checks the number itself.
--
-- The prover of System makes the snark of a request without caches (Prover shows that these do not
-- change a proof) and without finding it in a file: its instances are those of the circuit, and
-- the indices of an accumulator are the first ones. That the aggregator accepts two such snarks is
-- a hypothesis (IsHonest), as is that the Groth16 proofs of the claims verify. A node of depth d
-- compares the number of its claims, up to 2^d, by the safe comparison with 2^(d - 1) + 1, which
-- checks the bits of that bound, rounded up to whole lookups: a full node has one bit more, and so
-- the theorems of System are about trees for whose depths these bits suffice (HasRoom), those
-- below the bits of the lookup table.
--
-- State and concurrency. A call on the state of a prover takes the state and returns it with the
-- result (Prelude/States); the state is kept when the call fails, and the calls follow each other,
-- as the mutex on proving has it. The library's provers have a world of their own (Disk), where
-- their coins are and the files of snarks, and may change it and fail. A run of the asynchronous
-- scheduler is a relation (Run) between a request, the tasks that it records, in their order, and
-- its end: the tasks of its dependencies are interleaved in any order. The tasks that share the
-- permits of the executor are the steps of a transition system (Step). HashMap and BTreeMap are
-- lists of entries, with the tests of equality and the order of the keys that the source derives.
-- Tables of circuit ids are read back as they were written: their JSON is left out.
--
-- Fuel: merkle_tree_fuel has one unit more than there are leaves, which is above the number of levels;
-- step_by has one for each index; recursive_gen_proof is given fuel by its caller, and its theorems
-- state how much is enough, the height of the node in the tree and one more; the same holds of
-- create_and_serialize_proving_key. The rounds of wait_task_done are those of the polling loop, which
-- has no bound in the code: its theorem states when it ends and when it does not. A theorem that
-- speaks of every fuel from some number on gives that number as n and the fuel as n + more.
--
-- Not modelled: the parsing of keys from JSON (a parameter, Parsers), the reading of numbers and
-- points from texts (a parameter, Codec), the wrapping circuit of EVM nodes (made outside the
-- repository), the proof system and the files of keys and pinnings (parameters of Keygen and
-- Prover; the V2 circuits panic above depth 14, where DUMMY_CLAIM_ROOTS ends, so that the theorems
-- on key generation assume it only for nodes in sizes that fit them), the ids of proofs (part of
-- the path that the prover's parameter gives to a proof), the dummy claims and snarks of the
-- circuits for which keys are made, the addresses, retries and texts of requests to the
-- dispatcher, the sending of transactions, the launching of the servers, and the Solidity and
-- TypeScript parts. A panic in one dependency of a request also stops those that run beside it,
-- which Run leaves out.
pub mod Prelude
pub mod Halo2
pub mod Circuits
pub mod Scheduler
pub mod Keygen
pub mod Prover
pub mod System
pub mod Tests
