-- ===== src/Scheduler/Executor/Polling.antt =====
-- The polling loop ends with the first reply that is not on the way.
use worldcoin_aggregation.Prelude.{
  ℕ, zero, suc, ◌+◌, ◌≤◌, ◌<◌, ◌≡◌, refl, inl, inr, Bool-cases, ltb, if◌then◌else◌, ◌==◌, none,
  some, Result, ok, err, bail, Reason, arith,
}
use worldcoin_aggregation.Scheduler.Executor.{Reply, TaskStatus, poll, or_else, wait_task_done}

ends_at :
    (n : ℕ) (replies : ℕ → Reply) (outcome : Result (Unit {0}))
    → ((j : ℕ) → j < n → poll (replies j) ≡ none)
    → poll (replies n) ≡ some outcome
    → (rounds i : ℕ) → i ≤ n
    → n < i + rounds
    → wait_task_done rounds i replies ≡ some outcome
unfolding wait_task_done or_else
ends_at n replies outcome going ends zero i le l = absurd (omega arith)
ends_at n replies outcome going ends (suc rounds) i le l = elim (Bool-cases (i == n)) [
  | inl last ↦ let now : i ≡ n = ground arith in rw (now, ends)
  | inr earlier ↦
      rw (going i (ground arith))
        (ends_at n replies outcome going ends rounds (suc i) (ground arith) (omega arith))
]

goes_on :
    (n : ℕ) (replies : ℕ → Reply)
    → ((j : ℕ) → j < n → poll (replies j) ≡ none)
    → (rounds i : ℕ) → i + rounds ≤ n
    → wait_task_done rounds i replies ≡ none
unfolding wait_task_done or_else
goes_on n replies going zero i le = refl
goes_on n replies going (suc rounds) i le =
    rw (going i (omega arith)) (goes_on n replies going rounds (suc i) (omega arith))

-- A reply that says that the task is on its way.
pub data IsOnTheWay : Reply → Type 0 where
  waits : IsOnTheWay (Reply.status TaskStatus.pending)
  prepares : IsOnTheWay (Reply.status TaskStatus.preparing)
  proves : IsOnTheWay (Reply.status TaskStatus.proving)

-- A reply that settles the task, and how: only a task that is done is a success.
pub data Settles : Reply → Result (Unit {0}) → Type 0 where
  is_done : Settles (Reply.status TaskStatus.done) (ok tt)
  has_failed : Settles (Reply.status TaskStatus.failed) (err (bail Reason.task_failed))
  not_read : Settles Reply.unreadable (err (bail Reason.parse_failed))
  not_sent : Settles Reply.no_reply (err (bail Reason.request_failed))

poll-IsOnTheWay : {reply : Reply} → IsOnTheWay reply → poll reply ≡ none
unfolding poll
poll-IsOnTheWay waits = refl
poll-IsOnTheWay prepares = refl
poll-IsOnTheWay proves = refl

poll-Settles :
    {reply : Reply} {outcome : Result (Unit {0})}
    → Settles reply outcome
    → poll reply ≡ some outcome
unfolding poll
poll-Settles is_done = refl
poll-Settles has_failed = refl
poll-Settles not_read = refl
poll-Settles not_sent = refl

-- If the first n replies say that the task is pending, being prepared or proved, and the next one
-- settles it, the loop has ended after every number of rounds above n, and has not ended after
-- any other number; and it ends with success only if the task is done, and else with an error:
-- that of a failed task, of a reply that cannot be read, or of a request without a reply.
pub wait_task_done-first :
    (n : ℕ) (replies : ℕ → Reply) (outcome : Result (Unit {0}))
    → ((j : ℕ) → j < n → IsOnTheWay (replies j))
    → Settles (replies n) outcome
    → (rounds : ℕ) → wait_task_done rounds 0 replies ≡ (if ltb n rounds then some outcome else none)
wait_task_done-first n replies outcome on_the_way settled rounds =
    let going = λ (j : ℕ) (l : j < n). poll-IsOnTheWay (on_the_way j l) in
    let ends = poll-Settles settled in
    elim (Bool-cases (ltb n rounds)) [
      | inl over ↦
          rw over (ends_at n replies outcome going ends rounds 0 (omega arith) (ground arith))
      | inr not_yet ↦ rw not_yet (goes_on n replies going rounds 0 (ground arith))
    ]
