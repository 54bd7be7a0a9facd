-- ===== src/Scheduler/Fulfil.antt =====
-- The task that circuit/src/bin/scheduler_server.rs spawns: once its request is proved, it reads the
-- tasks that were recorded for it, writes them to a summary and sends the proof to the contract, at
-- most five times. The text of the summary and its file are parameters.
use worldcoin_aggregation.Prelude.{
  ℕ, zero, suc, ◌+◌, ◌≤◌, ◌<◌, ◌≡◌, ap, ◌∙◌, inl, inr, Bool, true, false, Option, none, some, List,
  [], ◌∷◌, Result, ok, err, panic, Reason, arith, or_fault, Bool-cases, ltb, if◌then◌else◌, ◌==◌,
  ◌>>=◌, ◌>>◌,
}
use worldcoin_aggregation.Prelude.Maps.{HashMap, IsTest, get}
use worldcoin_aggregation.Scheduler.NodeParams.{NodeParams}
use worldcoin_aggregation.Scheduler.Local.{ProverProof}
use worldcoin_aggregation.Scheduler.Contract.{ClaimNative, V1ClaimParams, Readers, claim_params}
use worldcoin_aggregation.Scheduler.Async.Tracker.{
  or_empty, record_all, tasks_among, record_all-tasks_among,
}

abbrev pub retry_send_threshold : ℕ
retry_send_threshold = 5

-- The outcome of the loop: the hash of the transaction, if one was sent, and the calls made.
unfoldable pub send_or : {Tx : Type 0} → Option Tx → ℕ → Option Tx × ℕ → Option Tx × ℕ
send_or (some tx) calls later = (some tx, calls)
send_or none calls later = later

-- The loop of calls of `fulfill`, from the call `i` on; `fulfill i` is the hash that it returns,
-- or nothing if it fails.
unfoldable pub retry : {Tx : Type 0} → ℕ → ℕ → (ℕ → Option Tx) → Option Tx × ℕ
retry zero i fulfill = (none, i)
retry (suc left) i fulfill = send_or (fulfill i) (suc i) (retry left (suc i) fulfill)

-- `unwrap` of a result without a value.
abbrev pub or_panic : Bool → Result (Unit {0})
or_panic true = ok tt
or_panic false = err (panic Reason.unwrap_none)

-- What the task needs of files and JSON: the text of the tasks, and whether the file of the summary
-- of a request can be made and written.
pub record SummaryFiles (RequestId TaskId Json : Type 0) : Type 0 where
  pub to_string_pretty : List (TaskId × NodeParams) → Option Json
  pub can_create : RequestId → Bool
  pub can_write : RequestId → Json → Bool

-- The parameters of the contract's function: in V1 they are read from the request and the proof, in
-- V2 they are the proof.
abbrev pub v1_params :
    {Text Address : Type 0}
    → Readers Text
    → Text
    → Text
    → List (ClaimNative Text Address)
    → Text
    → Result (V1ClaimParams Address)
v1_params readers vk_hash world_root claims final_proof =
    claim_params readers vk_hash world_root claims final_proof

abbrev pub v2_params : {EvmProof : Type 0} → EvmProof → Result EvmProof
v2_params final_proof = ok final_proof

-- The task, after `recursive_gen_proof`: the summary that it writes, and the outcome of its calls.
unfoldable pub finish_task :
    {RequestId TaskId CircuitId EvmProof Json Params Tx : Type 0}
    → (RequestId → RequestId → Bool)
    → SummaryFiles RequestId TaskId Json
    → (EvmProof → Result Params)
    → RequestId
    → HashMap RequestId (List (TaskId × NodeParams))
    → (Params → ℕ → Option Tx)
    → ProverProof CircuitId EvmProof
    → Result (Json × (Option Tx × ℕ))
finish_task same_request files params_of request tracker fulfill (ProverProof.snark id inner) =
    err (panic Reason.unreachable)
finish_task same_request files params_of request tracker fulfill (ProverProof.evm_proof proof) = do
  tasks ← or_fault (get same_request request tracker) (panic Reason.unwrap_none)
  json_string ← or_fault (files.to_string_pretty tasks) (panic Reason.unwrap_none)
  or_panic (files.can_create request)
  or_panic (files.can_write request json_string)
  params ← params_of proof
  ok (json_string, retry retry_send_threshold 0 (fulfill params))

sent_at :
    {Tx : Type 0} (n : ℕ) (fulfill : ℕ → Option Tx) (tx : Tx)
    → ((j : ℕ) → j < n → fulfill j ≡ none)
    → fulfill n ≡ some tx
    → (left i : ℕ) → i ≤ n
    → n < i + left
    → retry left i fulfill ≡ (some tx, suc n)
unfolding retry send_or
sent_at n fulfill tx failing sent zero i le l = absurd (omega arith)
sent_at n fulfill tx failing sent (suc left) i le l = elim (Bool-cases (i == n)) [
  | inl last ↦ let now : i ≡ n = ground arith in rw (now, sent)
  | inr earlier ↦
      rw (failing i (ground arith))
        (sent_at n fulfill tx failing sent left (suc i) (ground arith) (omega arith))
]

gives_up :
    {Tx : Type 0} (n : ℕ) (fulfill : ℕ → Option Tx)
    → ((j : ℕ) → j < n → fulfill j ≡ none)
    → (left i : ℕ) → i + left ≤ n
    → retry left i fulfill ≡ (none, i + left)
unfolding retry send_or
gives_up n fulfill failing zero i le = let at_end : i + 0 ≡ i = omega arith in rw at_end
gives_up n fulfill failing (suc left) i le =
    let at_end : i + suc left ≡ suc i + left = omega arith in
    rw (failing i (omega arith), at_end) (gives_up n fulfill failing left (suc i) (omega arith))

-- If the first n calls of the contract fail and the next one succeeds, the loop returns the
-- transaction of that call and makes no further call, if n is below the threshold, and else makes
-- as many calls as the threshold says and returns nothing.
pub retry-first :
    {Tx : Type 0} (n : ℕ) (fulfill : ℕ → Option Tx) (tx : Tx) (threshold : ℕ)
    → ((j : ℕ) → j < n → fulfill j ≡ none)
    → fulfill n ≡ some tx
    → retry threshold 0 fulfill ≡ (if ltb n threshold then (some tx, suc n) else (none, threshold))
retry-first n fulfill tx threshold failing sent = elim (Bool-cases (ltb n threshold)) [
  | inl soon ↦ rw soon (sent_at n fulfill tx failing sent threshold 0 (omega arith) (ground arith))
  | inr late ↦
      let whole : 0 + threshold ≡ threshold = omega arith in
      rw late (gives_up n fulfill failing threshold 0 (ground arith) ∙ ap (λ k. (none, k)) whole)
]

or_empty-some :
    {A : Type 0} (o : Option (List A)) (x : A) (xs : List A)
    → or_empty o ≡ x ∷ xs
    → o ≡ some (x ∷ xs)
or_empty-some none x xs e = cc
or_empty-some (some ys) x xs e = ap some e

-- If the comparison of request ids decides their equality, and at least one of the tasks that the
-- tracker recorded from the start is of a request, and the text of these tasks can be made and
-- written to the summary of the request, then the task that the scheduler server spawned for this
-- request, on its EVM proof, finds exactly the tasks of the request for its summary, and then
-- fails as the making of the contract's parameters does, or sends these parameters with its loop
-- of calls.
pub finish_task-tasks_among :
    {RequestId TaskId EvmProof Json Params Tx : Type 0} (CircuitId : Type 0)
    (same_request : RequestId → RequestId → Bool) (files : SummaryFiles RequestId TaskId Json)
    (params_of : EvmProof → Result Params) (request : RequestId)
    (events : List (RequestId × (TaskId × NodeParams))) (fulfill : Params → ℕ → Option Tx)
    (proof : EvmProof) (task : TaskId × NodeParams) (tasks : List (TaskId × NodeParams))
    (json : Json)
    → IsTest same_request
    → tasks_among same_request request events ≡ task ∷ tasks
    → files.to_string_pretty (task ∷ tasks) ≡ some json
    → files.can_create request ≡ true
    → files.can_write request json ≡ true
    → finish_task {CircuitId = CircuitId} same_request files params_of request
        (record_all same_request events [])
        fulfill
        (ProverProof.evm_proof proof)
      ≡ (do params ← params_of proof; ok (json, retry retry_send_threshold 0 (fulfill params)))
unfolding finish_task get
finish_task-tasks_among CircuitId same_request files params_of request events fulfill proof task
      tasks json is some_task text created written =
    let found =
      or_empty-some (get same_request request (record_all same_request events [])) task tasks
        (record_all-tasks_among same_request is request events [] ∙ some_task) in
    rw (found, text, created, written)
