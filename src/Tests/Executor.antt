-- ===== src/Tests/Executor.antt =====
-- The theorems on the executor and on the calls of the contract.
use worldcoin_aggregation.Prelude.Maps.{ℕ-IsTest}
use worldcoin_aggregation.Prelude.{
  ◌>>=◌, length, true, ℕ, zero, suc, ◌<◌, ◌≡◌, ◌⊎◌, refl, none, some, List, [], ◌∷◌, Option, ok,
  All, arith, ◌==◌, ltb, if◌then◌else◌,
}
use worldcoin_aggregation.Scheduler.NodeParams.{NodeType, NodeParams}
use worldcoin_aggregation.Scheduler.Local.{ProverProof}
use worldcoin_aggregation.Scheduler.Async.Tracker.{record_all}
use worldcoin_aggregation.Scheduler.Contract.{ClaimNative, V1ClaimParams, Readers}
use worldcoin_aggregation.Scheduler.Fulfil.{
  retry, retry-first, finish_task, finish_task-tasks_among, SummaryFiles, v1_params,
}
use worldcoin_aggregation.Scheduler.Executor.{
  Reply, TaskStatus, semaphore, Service, Phase, Pool, Step, move, waiting, holding, fetching,
  acquire, release, poll, or_else, wait_task_done, finish_wait, create_and_wait,
}
use worldcoin_aggregation.Scheduler.Executor.Polling.{
  IsOnTheWay, waits, proves, is_done, wait_task_done-first,
}
use worldcoin_aggregation.Scheduler.Executor.Permits.{
  IsConserved, IsRight, Reach, started, later, Reach-IsConserved,
}
use worldcoin_aggregation.Scheduler.Executor.Progress.{IsFinished, progress}

abbrev leaf_node : NodeParams
leaf_node = record { node_type = NodeType.leaf; depth = 1; initial_depth = 1 }

abbrev upper_node : NodeParams
upper_node = record { node_type = NodeType.intermediate; depth = 2; initial_depth = 1 }

abbrev two_requests : List (ℕ × (ℕ × NodeParams))
two_requests = (1, (4, leaf_node)) ∷ (2, (4, leaf_node)) ∷ (1, (5, upper_node)) ∷ []

-- The third call of the contract succeeds.
abbrev third_call : ℕ → Option ℕ
third_call i = if ltb i 2 then none else some 77

two_fail : (j : ℕ) → j < 2 → third_call j ≡ none
two_fail j l = ground arith

retry-first_example : retry 5 0 third_call ≡ (if ltb 2 5 then (some 77, suc 2) else (none, 5))
retry-first_example = retry-first 2 third_call 77 5 two_fail refl

-- The summary of some tasks is their number, and its file can be made.
abbrev files : SummaryFiles ℕ ℕ ℕ
files = record {
  to_string_pretty = λ tasks. some (length tasks);
  can_create = λ request. true;
  can_write = λ request json. true;
}

-- Texts that are numbers.
abbrev readers : Readers ℕ
readers = record { read_h256 = some; read_decimal = some; read_hex = λ text. some (text ∷ []) }

abbrev one_claim : List (ClaimNative ℕ ℕ)
one_claim = record { receiver = 1; nullifier_hash = 2; grant_id = 30; proof = [] } ∷ []

finish_task-tasks_among_example :
    finish_task {TaskId = ℕ} {CircuitId = ℕ} ◌==◌ files
      (v1_params readers 8 99 one_claim)
      1
      (record_all ◌==◌ two_requests [])
      (λ (params : V1ClaimParams ℕ). third_call)
      (ProverProof.evm_proof 7)
    ≡ (do params ← v1_params readers 8 99 one_claim 7; ok (2, retry 5 0 third_call))
finish_task-tasks_among_example =
    finish_task-tasks_among ℕ ◌==◌ files (v1_params readers 8 99 one_claim) 1 two_requests
      (λ (params : V1ClaimParams ℕ). third_call) 7 (4, leaf_node) ((5, upper_node) ∷ []) 2 ℕ-IsTest
      refl refl refl refl

-- A task that is done at the third reply.
abbrev replies : ℕ → Reply
replies zero = Reply.status TaskStatus.pending
replies (suc zero) = Reply.status TaskStatus.proving
replies (suc (suc n)) = Reply.status TaskStatus.done

two_go_on : (j : ℕ) → j < 2 → IsOnTheWay (replies j)
two_go_on zero l = waits
two_go_on (suc zero) l = proves
two_go_on (suc (suc j)) l = absurd (omega arith)

wait_task_done-first_example : wait_task_done 4 0 replies ≡ (if ltb 2 4 then some (ok tt) else none)
wait_task_done-first_example = wait_task_done-first 2 replies (ok tt) two_go_on is_done 4

abbrev service : Service ℕ ℕ
service = record { created = ok 8; replies = replies; snark = ok 9 }

service_ends : create_and_wait {TaskId = ℕ} 3 (ok 8) replies ≡ some (ok 8)
unfolding create_and_wait finish_wait wait_task_done or_else poll
service_ends = refl

-- Two tasks and one permit.
abbrev pool_of : ℕ → Phase ℕ ℕ → Phase ℕ ℕ → Pool ℕ ℕ
pool_of free first_phase second_phase = record {
  permits = some free;
  tasks = (service, first_phase) ∷ (service, second_phase) ∷ [];
}

second_runs : Reach (pool_of 1 waiting waiting) (pool_of 1 waiting (fetching 8))
second_runs =
    later (later started (move ((service, waiting) ∷ []) [] service (acquire 0)))
      (move ((service, waiting) ∷ []) [] service (release (some 0) 3 8 service_ends))

Reach-IsConserved_example :
    IsConserved (some 1) (pool_of 1 waiting (fetching 8))
    × All IsRight ((pool_of 1 waiting (fetching 8)).tasks)
Reach-IsConserved_example =
    Reach-IsConserved (some 1) second_runs (1, refl, omega arith) (tt, (tt, tt))

one_permit : IsConserved (semaphore 1) (pool_of 0 waiting holding)
unfolding semaphore
one_permit = (0, refl, omega arith)

progress_example :
    ((t : Pool ℕ ℕ) × Step (pool_of 0 waiting holding) t)
    ⊎ All IsFinished ((pool_of 0 waiting holding).tasks)
progress_example =
    progress 1 (pool_of 0 waiting holding) one_permit
      ((3, ok 8, service_ends), ((3, ok 8, service_ends), tt))
