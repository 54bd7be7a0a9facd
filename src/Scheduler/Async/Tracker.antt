-- ===== src/Scheduler/Async/Tracker.antt =====
-- circuit/src/scheduler/task_tracker.rs: the tasks of every request, in the order in which they are
-- recorded.
use mathlib.Core.List.{append-nil, append_assoc}
use worldcoin_aggregation.Prelude.{
  ◌≡◌, sym, ap, ◌∙◌, inl, inr, Bool, Option, none, some, List, [], ◌∷◌, ◌++◌, Bool-cases,
  if◌then◌else◌,
}
use worldcoin_aggregation.Prelude.Maps.{HashMap, IsTest, get, put}
use worldcoin_aggregation.Scheduler.NodeParams.{NodeParams}

-- `entry(..).or_insert_with(Vec::new)`
abbrev pub or_empty : {A : Type 0} → Option (List A) → List A
or_empty none = []
or_empty (some xs) = xs

module _ {RequestId TaskId : Type 0} (same_request : RequestId → RequestId → Bool) where
  -- `record_task`
  unfoldable pub record_task :
      RequestId
      → TaskId × NodeParams
      → HashMap RequestId (List (TaskId × NodeParams))
      → HashMap RequestId (List (TaskId × NodeParams))
  record_task request task tracker =
      put request (or_empty (get same_request request tracker) ++ (task ∷ [])) tracker

  -- The tasks of several requests, recorded one after the other.
  unfoldable pub record_all :
      List (RequestId × (TaskId × NodeParams))
      → HashMap RequestId (List (TaskId × NodeParams))
      → HashMap RequestId (List (TaskId × NodeParams))
  record_all [] tracker = tracker
  record_all ((request, task) ∷ events) tracker =
      record_all events (record_task request task tracker)

  -- The tasks of one request among those of all.
  abbrev pub tasks_among :
      RequestId → List (RequestId × (TaskId × NodeParams)) → List (TaskId × NodeParams)
  tasks_among request [] = []
  tasks_among request ((other, task) ∷ events) =
      let rest = tasks_among request events in
      if same_request request other then task ∷ rest else rest

  tasks_among-cons :
      (request other : RequestId) (task : TaskId × NodeParams)
      (events : List (RequestId × (TaskId × NodeParams)))
      → tasks_among request ((other, task) ∷ events)
        ≡ tasks_among request ((other, task) ∷ []) ++ tasks_among request events
  tasks_among-cons request other task events = elim (Bool-cases (same_request request other)) [
    | inl mine ↦ rw mine
    | inr theirs ↦ rw theirs
  ]

  recorded :
      IsTest same_request
      → (request other : RequestId) (task : TaskId × NodeParams)
        (tracker : HashMap RequestId (List (TaskId × NodeParams)))
      → or_empty (get same_request request (record_task other task tracker))
        ≡ or_empty (get same_request request tracker) ++ tasks_among request ((other, task) ∷ [])
  unfolding record_task get put
  recorded is request other task tracker = elim (Bool-cases (same_request request other)) [
    | inl mine ↦ rw (mine, is.test→≡ request other mine)
    | inr theirs ↦ rw (theirs, append-nil)
  ]

  -- If the comparison of request ids decides their equality, then after the tasks of any requests
  -- are recorded one after the other, the tracker has for each request the tasks that it had and
  -- then those of that request, in the order in which they were recorded.
  pub record_all-tasks_among :
      IsTest same_request
      → (request : RequestId) (events : List (RequestId × (TaskId × NodeParams)))
        (tracker : HashMap RequestId (List (TaskId × NodeParams)))
      → or_empty (get same_request request (record_all events tracker))
        ≡ or_empty (get same_request request tracker) ++ tasks_among request events
  unfolding record_all
  record_all-tasks_among is request [] tracker = sym (append-nil _)
  record_all-tasks_among is request ((other, task) ∷ events) tracker =
      record_all-tasks_among is request events (record_task other task tracker)
      ∙ ap (λ xs. xs ++ tasks_among request events) (recorded is request other task tracker)
      ∙ append_assoc (or_empty (get same_request request tracker))
          (tasks_among request ((other, task) ∷ [])) (tasks_among request events)
      ∙ ap (λ xs. or_empty (get same_request request tracker) ++ xs)
          (sym (tasks_among-cons request other task events))
