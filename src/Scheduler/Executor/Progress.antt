-- ===== src/Scheduler/Executor/Progress.antt =====
-- No task waits for a permit forever.
use worldcoin_aggregation.Prelude.{
  ℕ, zero, suc, ◌<◌, ◌≡◌, ◌≢◌, ◌⊎◌, refl, sym, ap, ◌∙◌, inl, inr, Option, none, some, List, [], ◌∷◌,
  ◌++◌, Result, ok, err, arith, All, false, ◌==◌,
}
use worldcoin_aggregation.Scheduler.Executor.{
  Service, Phase, Pool, Move, Step, move, waiting, holding, fetching, finished, acquire,
  acquire_unlimited, fail, release, fetched, give_back, semaphore, create_and_wait, fetch,
}
use worldcoin_aggregation.Scheduler.Executor.Permits.{holders, IsConserved}

-- The status of the task ends its polling.
abbrev pub Ends : {TaskId Proof : Type 0} → Service TaskId Proof × Phase TaskId Proof → Type 0
Ends {TaskId} (service, phase) =
    (rounds : ℕ) × (r : Result TaskId) × (create_and_wait rounds service.created service.replies
      ≡ some r)

abbrev pub IsFinished : {TaskId Proof : Type 0} → Service TaskId Proof × Phase TaskId Proof → Type 0
IsFinished {TaskId} {Proof} (service, phase) =
    (result : Result (TaskId × Proof)) × (phase ≡ finished result)

module _ {TaskId Proof : Type 0} where
  -- One of the tasks can move.
  record CanMove (m : Option ℕ) (tasks : List (Service TaskId Proof × Phase TaskId Proof))
      : Type 0 where
    before : List (Service TaskId Proof × Phase TaskId Proof)
    after : List (Service TaskId Proof × Phase TaskId Proof)
    service : Service TaskId Proof
    now : Phase TaskId Proof
    then_phase : Phase TaskId Proof
    left : Option ℕ
    among : tasks ≡ before ++ ((service, now) ∷ after)
    moves : Move service now m then_phase left

  first_moves :
      (m : Option ℕ) (service : Service TaskId Proof)
      (tasks : List (Service TaskId Proof × Phase TaskId Proof)) (p q : Phase TaskId Proof)
      (n : Option ℕ)
      → Move service p m q n
      → CanMove m ((service, p) ∷ tasks)
  first_moves m service tasks p q n step = record {
    before = [];
    after = tasks;
    service = service;
    now = p;
    then_phase = q;
    left = n;
    among = refl;
    moves = step;
  }

  later_moves :
      {m : Option ℕ} {tasks : List (Service TaskId Proof × Phase TaskId Proof)}
      (task : Service TaskId Proof × Phase TaskId Proof)
      → CanMove m tasks
      → CanMove m (task ∷ tasks)
  later_moves task can = record {
    before = task ∷ can.before;
    after = can.after;
    service = can.service;
    now = can.now;
    then_phase = can.then_phase;
    left = can.left;
    among = ap (λ ts. task ∷ ts) can.among;
    moves = can.moves;
  }

  holding_moves :
      (m : Option ℕ) (service : Service TaskId Proof)
      (tasks : List (Service TaskId Proof × Phase TaskId Proof)) (rounds : ℕ) (r : Result TaskId)
      → create_and_wait rounds service.created service.replies ≡ some r
      → CanMove m ((service, holding) ∷ tasks)
  holding_moves m service tasks rounds (ok task_id) e =
      first_moves m service tasks holding (fetching task_id) (give_back m)
        (release m rounds task_id e)
  holding_moves m service tasks rounds (err fault) e =
      first_moves m service tasks holding (finished (err fault)) (give_back m)
        (fail m rounds fault e)

  -- A task moves, or no permit is held and either none is free or all tasks have ended.
  look :
      (m : Option ℕ) (tasks : List (Service TaskId Proof × Phase TaskId Proof))
      → All Ends tasks
      → CanMove m tasks ⊎ ((holders tasks ≡ 0) × ((m ≡ some 0) ⊎ All IsFinished tasks))
  look m [] ends = inr (refl, inr tt)
  look m ((service, holding) ∷ tasks) ends =
      let (rounds, r, e) = ends.0 in inl (holding_moves m service tasks rounds r e)
  look m ((service, fetching task_id) ∷ tasks) ends = inl (
      first_moves m service tasks (fetching task_id) (finished (fetch task_id service)) m
        (fetched m task_id))
  look none ((service, waiting) ∷ tasks) ends =
      inl (first_moves none service tasks waiting holding none acquire_unlimited)
  look (some (suc n)) ((service, waiting) ∷ tasks) ends =
      inl (first_moves (some (suc n)) service tasks waiting holding (some n) (acquire n))
  look (some zero) ((service, waiting) ∷ tasks) ends = elim (look (some zero) tasks ends.1) [
    | inl can ↦ inl (later_moves (service, waiting) can)
    | inr (nobody, rest) ↦ inr (omega arith, inl refl)
  ]
  look m ((service, finished result) ∷ tasks) ends = elim (look m tasks ends.1) [
    | inl can ↦ inl (later_moves (service, finished result) can)
    | inr (nobody, inl out) ↦ inr (omega arith, inl out)
    | inr (nobody, inr all) ↦ inr (omega arith, inr ((result, refl), all))
  ]

  CanMove-Step :
      (pool : Pool TaskId Proof)
      → CanMove pool.permits pool.tasks
      → (t : Pool TaskId Proof) × Step pool t
  CanMove-Step pool can = (
    record {
      permits = can.left;
      tasks = can.before ++ ((can.service, can.then_phase) ∷ can.after);
    },
    rw can.among (move can.before can.after can.service can.moves),
  )

  starved_some :
      (c : ℕ) (pool : Pool TaskId Proof)
      → 0 < c
      → IsConserved (some c) pool
      → holders pool.tasks ≡ 0
      → pool.permits ≢ some 0
  starved_some c pool pos (free, e, sum) nobody out =
      let both : some free ≡ some 0 = sym e ∙ out in
      let zero_free : free ≡ 0 = cc in absurd (omega arith)

  starved :
      (proof_concurrency : ℕ) (pool : Pool TaskId Proof)
      → IsConserved (semaphore proof_concurrency) pool
      → holders pool.tasks ≡ 0
      → pool.permits ≢ some 0
  unfolding semaphore
  starved zero pool h nobody out = let bad : none ≡ some 0 = sym h ∙ out in cc
  starved (suc c) pool h nobody out =
      let limited : (suc c == 0) ≡ false = ground arith in
      starved_some (suc c) pool (omega arith) (rw limited at h) nobody out

  -- If the permits of an executor are conserved, and the status of every task ends its polling,
  -- then all tasks have ended or one of them can move: none waits for a permit that is never
  -- returned.
  pub progress :
      (proof_concurrency : ℕ) (pool : Pool TaskId Proof)
      → IsConserved (semaphore proof_concurrency) pool
      → All Ends pool.tasks
      → ((t : Pool TaskId Proof) × Step pool t) ⊎ All IsFinished pool.tasks
  progress proof_concurrency pool h ends = elim (look pool.permits pool.tasks ends) [
    | inl can ↦ inl (CanMove-Step pool can)
    | inr (nobody, inl out) ↦ absurd (starved proof_concurrency pool h nobody out)
    | inr (nobody, inr all) ↦ inr all
  ]
