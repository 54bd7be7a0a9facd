-- ===== src/Scheduler/Executor/Permits.antt =====
-- However the tasks are interleaved, no permit is lost, and every task ends as it would alone.
use worldcoin_aggregation.Prelude.{
  ℕ, suc, ◌+◌, ◌≡◌, refl, Option, none, some, List, [], ◌∷◌, ◌++◌, ok, err, arith, All,
}
use worldcoin_aggregation.Scheduler.Executor.{
  Service, Phase, Pool, Move, Step, move, waiting, holding, fetching, finished, acquire,
  acquire_unlimited, fail, release, fetched, create_and_wait, fetch, fetch_after, execute_impl,
}

-- The permit that a task holds.
abbrev pub held : {TaskId Proof : Type 0} → Phase TaskId Proof → ℕ
held waiting = 0
held holding = 1
held (fetching task_id) = 0
held (finished result) = 0

abbrev pub holders : {TaskId Proof : Type 0} → List (Service TaskId Proof × Phase TaskId Proof) → ℕ
holders [] = 0
holders ((service, phase) ∷ tasks) = held phase + holders tasks

-- The free permits and those that are held are all permits there are.
abbrev pub IsConserved : {TaskId Proof : Type 0} → Option ℕ → Pool TaskId Proof → Type 0
IsConserved none pool = pool.permits ≡ none
IsConserved (some capacity) pool =
    (free : ℕ) × (pool.permits ≡ some free) × (free + holders pool.tasks ≡ capacity)

-- What a task has is what its service gives.
abbrev pub IsRight : {TaskId Proof : Type 0} → Service TaskId Proof × Phase TaskId Proof → Type 0
IsRight (service, waiting) = Unit
IsRight (service, holding) = Unit
IsRight (service, fetching task_id) =
    (rounds : ℕ) × (create_and_wait rounds service.created service.replies ≡ some (ok task_id))
IsRight (service, finished result) = (rounds : ℕ) × (execute_impl rounds service ≡ some result)

module _ {TaskId Proof : Type 0} where
  holders-middle :
      (before after : List (Service TaskId Proof × Phase TaskId Proof))
      (task : Service TaskId Proof × Phase TaskId Proof)
      → holders (before ++ (task ∷ after)) ≡ held task.1 + (holders before + holders after)
  holders-middle [] after task = omega arith
  holders-middle (first ∷ before) after task = omega (arith, holders-middle before after task)

  Move-IsConserved :
      (capacity : Option ℕ) (service : Service TaskId Proof)
      (before after : List (Service TaskId Proof × Phase TaskId Proof)) {p q : Phase TaskId Proof}
      {m n : Option ℕ}
      → Move service p m q n
      → IsConserved capacity (record { permits = m; tasks = before ++ ((service, p) ∷ after) })
      → IsConserved capacity (record { permits = n; tasks = before ++ ((service, q) ∷ after) })
  Move-IsConserved none service before after (acquire n) h = cc
  Move-IsConserved none service before after acquire_unlimited h = h
  Move-IsConserved none service before after (fail permits rounds e ends) h = rw h refl
  Move-IsConserved none service before after (release permits rounds task_id ends) h = rw h refl
  Move-IsConserved none service before after (fetched permits task_id) h = h
  Move-IsConserved (some c) service before after (acquire n) (free, e, sum) =
      let value : suc n ≡ free = cc in
      (
        n,
        refl,
        omega (
          arith,
          holders-middle before after (service, waiting),
          holders-middle before after (service, holding),
        ),
      )
  Move-IsConserved (some c) service before after acquire_unlimited (free, e, sum) = cc
  Move-IsConserved (some c) service before after (fail permits rounds fault ends) (free, e, sum) = (
    suc free,
    rw e refl,
    omega (
      arith,
      holders-middle before after (service, holding),
      holders-middle before after (service, finished (err fault)),
    ),
  )
  Move-IsConserved (some c) service before after (release permits rounds task_id ends)
        (free, e, sum) =
      (
        suc free,
        rw e refl,
        omega (
          arith,
          holders-middle before after (service, holding),
          holders-middle before after (service, fetching task_id),
        ),
      )
  Move-IsConserved (some c) service before after (fetched permits task_id) (free, e, sum) = (
    free,
    e,
    omega (
      arith,
      holders-middle before after (service, fetching task_id),
      holders-middle before after (service, finished (fetch task_id service)),
    ),
  )

  Move-IsRight :
      (service : Service TaskId Proof) {p q : Phase TaskId Proof} {m n : Option ℕ}
      → Move service p m q n
      → IsRight (service, p)
      → IsRight (service, q)
  unfolding execute_impl fetch_after
  Move-IsRight service (acquire n) h = tt
  Move-IsRight service acquire_unlimited h = tt
  Move-IsRight service (fail permits rounds fault ends) h = (rounds, rw ends)
  Move-IsRight service (release permits rounds task_id ends) h = (rounds, ends)
  Move-IsRight service (fetched permits task_id) (rounds, ends) = (rounds, rw ends)

  replace-All :
      (P : Service TaskId Proof × Phase TaskId Proof → Type 0)
      (before after : List (Service TaskId Proof × Phase TaskId Proof))
      (x y : Service TaskId Proof × Phase TaskId Proof)
      → (P x → P y)
      → All P (before ++ (x ∷ after))
      → All P (before ++ (y ∷ after))
  replace-All P [] after x y f h = (f h.0, h.1)
  replace-All P (first ∷ before) after x y f h = (h.0, replace-All P before after x y f h.1)

  -- A number of steps.
  pub data Reach (start : Pool TaskId Proof) : Pool TaskId Proof → Type 0 where
    started : Reach start start
    later : {s t : Pool TaskId Proof} → Reach start s → Step s t → Reach start t

  -- However the tasks of an executor take turns: if at first the free permits and those that are
  -- held are all permits, or their number is not limited, that is so after any number of steps;
  -- and if at first each task that has ended has the result that execute_impl gives it alone, for
  -- some number of rounds of polling, that is so as well.
  pub Reach-IsConserved :
      (capacity : Option ℕ) {s t : Pool TaskId Proof}
      → Reach s t
      → IsConserved capacity s
      → All IsRight s.tasks
      → IsConserved capacity t × All IsRight t.tasks
  Reach-IsConserved capacity started h right = (h, right)
  Reach-IsConserved capacity (later r (move before after service {p} {q} step)) h right =
      let (conserved, all_right) = Reach-IsConserved capacity r h right in
      (
        Move-IsConserved capacity service before after step conserved,
        replace-All IsRight before after (service, p) (service, q) (Move-IsRight service step)
            all_right,
      )
