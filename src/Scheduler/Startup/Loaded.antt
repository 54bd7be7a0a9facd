-- ===== src/Scheduler/Startup/Loaded.antt =====
-- The tables of the scheduler server hold the entries of the file.
use worldcoin_aggregation.Prelude.{
  ◌≡◌, refl, inl, inr, Bool, true, some, List, [], ◌∷◌, ◌++◌, ok, arith, length, length-append,
  Bool-cases, ltb,
}
use worldcoin_aggregation.Prelude.Maps.{IsTest, get, get-put, get-put-some, get-put-total}
use worldcoin_aggregation.Scheduler.NodeParams.{NodeParams}
use worldcoin_aggregation.Scheduler.NodeParams.Order.{same, same_refl, same→≡}
use worldcoin_aggregation.Scheduler.Startup.{Tables, last_of, fill, load_tables}
use worldcoin_aggregation.Keygen.Table.{lookup}

last_of-append : {A : Type 0} (xs : List A) (x : A) → last_of (xs ++ (x ∷ [])) ≡ some x
last_of-append [] x = refl
last_of-append (a ∷ []) x = refl
last_of-append (a ∷ b ∷ rest) x = last_of-append (b ∷ rest) x

same-IsTest : IsTest same
same-IsTest = record { refl_test = same_refl; test→≡ = same→≡ }

module _ {CircuitId : Type 0} (same_id : CircuitId → CircuitId → Bool) where
  -- Every circuit id of the first table has a node in the second.
  abbrev pub Named : Tables CircuitId → Type 0
  Named t =
      (p : NodeParams) (id : CircuitId)
      → get same p t.cids_repo ≡ some id
      → (q : NodeParams) × (get same_id id t.cid_to_params ≡ some q)

  pub fill-Named :
      IsTest same_id
      → (cids : List (NodeParams × CircuitId)) (t : Tables CircuitId) → Named t
      → Named (fill cids t)
  unfolding fill
  fill-Named is [] t named = named
  fill-Named is ((p, id) ∷ cids) t named = fill-Named is cids _ (λ q other found.
      elim (get-put-some same p q id other t.cids_repo same-IsTest found) [
        | inl (at_p, value) ↦ rw (← value) (p, get-put same_id id p t.cid_to_params is)
        | inr before ↦
            let (r, named_before) = named q other before in
            get-put-total same_id id other p r t.cid_to_params named_before
      ])

module _ {CircuitId : Type 0} where
  fill-keeps :
      (cids : List (NodeParams × CircuitId)) (t : Tables CircuitId) (p : NodeParams)
      (id : CircuitId)
      → get same p t.cids_repo ≡ some id
      → (found : CircuitId) × (get same p (fill cids t).cids_repo ≡ some found)
  unfolding fill
  fill-keeps [] t p id e = (id, e)
  fill-keeps ((q, other) ∷ cids) t p id e =
      let (next_id, e2) = get-put-total same q p other id t.cids_repo e in
      fill-keeps cids _ p next_id e2

  pub fill-knows :
      (cids : List (NodeParams × CircuitId)) (t : Tables CircuitId) (p : NodeParams)
      (id : CircuitId)
      → lookup p cids ≡ some id
      → (found : CircuitId) × (get same p (fill cids t).cids_repo ≡ some found)
  unfolding fill lookup
  fill-knows [] t p id e = cc
  fill-knows ((q, other) ∷ cids) t p id e = elim (Bool-cases (same p q)) [
    | inl mine ↦
        fill-keeps cids _ p other
          (rw (same→≡ p q mine) (get-put same q other t.cids_repo same-IsTest))
    | inr theirs ↦ fill-knows cids _ p id (rw theirs at e)
  ]

  pub fill-final :
      (cids : List (NodeParams × CircuitId)) (t : Tables CircuitId)
      → (fill cids t).final_circuit_params ≡ t.final_circuit_params
  unfolding fill
  fill-final [] t = refl
  fill-final ((q, other) ∷ cids) t = fill-final cids _

  -- A file that ends with the node `top` is loaded.
  pub load_tables-eq :
      (others : List (NodeParams × CircuitId)) (top : NodeParams) (id : CircuitId)
      → load_tables (others ++ ((top, id) ∷ []))
        ≡ ok (
            fill
              (others ++ ((top, id) ∷ []))
              (record { final_circuit_params = top; cids_repo = []; cid_to_params = [] }))
  unfolding load_tables
  load_tables-eq others top id =
      let some_entry : ltb 0 (length (others ++ ((top, id) ∷ []))) ≡ true =
        ground (arith, length-append others ((top, id) ∷ [])) in
      rw (some_entry, last_of-append others (top, id))
