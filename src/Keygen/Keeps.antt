-- ===== src/Keygen/Keeps.antt =====
-- Key generation changes no circuit id that the table has.
use worldcoin_aggregation.Prelude.{
  ℕ, zero, suc, ◌≡◌, ◌∙◌, inl, inr, true, none, some, Result, ok, Bool-cases, Option-cases,
  ok-injective, assert-eq-ok, >>=-eq-ok, ◌>>=◌, Option, index,
}
use worldcoin_aggregation.Scheduler.NodeParams.{NodeParams}
use worldcoin_aggregation.Scheduler.NodeParams.Order.{same, same→≡}
use worldcoin_aggregation.Keygen.Table.{Repo, lookup, insert, lookup-insert, lookup-insert-other}
use worldcoin_aggregation.Keygen.{
  RecursiveIntent, KeygenLib, AggTreeId, DependencyIntent, Made, child_intent, dependency_of,
  intent_of, check_replaced, record_id, create_node, create_and_serialize_proving_key,
}

-- The second table has the entries of the first.
abbrev pub Extends : {V : Type 0} → Repo V → Repo V → Type 0
Extends {V} repo repo2 =
    (q : NodeParams) (id : V) → lookup q repo ≡ some id → lookup q repo2 ≡ some id

-- The comparison of circuit ids decides their equality.
abbrev pub IsIdTest :
    {CircuitId Srs Pk Vk Pinning : Type 0} → KeygenLib CircuitId Srs Pk Vk Pinning → Type 0
IsIdTest {CircuitId} lib = (a b : CircuitId) → lib.same_id a b ≡ true → a ≡ b

insert-Extends :
    {V : Type 0} (p : NodeParams) (v : V) (repo : Repo V)
    → ((old : V) → lookup p repo ≡ some old → v ≡ old)
    → Extends repo (insert p v repo)
insert-Extends p v repo agree q id found = elim (Bool-cases (same q p)) [
  | inl e ↦
      let key = same→≡ q p e in
      let value : v ≡ id = agree id (rw key at found) in rw (key, value) (lookup-insert p id repo)
  | inr other ↦ lookup-insert-other p q v repo other ∙ found
]

module _ {CircuitId Srs Pk Vk Pinning : Type 0} (lib : KeygenLib CircuitId Srs Pk Vk Pinning)
    (test : IsIdTest lib) where
  check_replaced-eq-ok :
      (o : Option CircuitId) (id : CircuitId) (k : Result (Repo CircuitId)) {r : Repo CircuitId}
      → (check_replaced lib o id >>= λ u. k) ≡ ok r
      → ((old : CircuitId) → o ≡ some old → id ≡ old) × (k ≡ ok r)
  unfolding check_replaced
  check_replaced-eq-ok none id k e = (λ old h. cc, e)
  check_replaced-eq-ok (some a) id k e = elim (Bool-cases (lib.same_id a id)) [
    | inl equal ↦ let first = test a id equal in (λ old h. cc, rw equal at e)
    | inr differs ↦ let bad = rw differs at e in cc
  ]

  record_id-Extends :
      (p : NodeParams) (id : CircuitId) (repo : Repo CircuitId) {repo2 : Repo CircuitId}
      → record_id lib p id repo ≡ ok repo2
      → Extends repo repo2
  unfolding record_id
  record_id-Extends p id repo e =
      let (agree, last) = check_replaced-eq-ok (lookup p repo) id (ok (insert p id repo)) e in
      let same_repo = ok-injective last in rw (← same_repo) (insert-Extends p id repo agree)

  create_node-Extends :
      (intent : RecursiveIntent) (dep : Option (AggTreeId CircuitId × DependencyIntent Vk))
      (repo : Repo CircuitId) {made : Made CircuitId Pk Pinning}
      → create_node lib intent dep repo ≡ ok made
      → Extends repo made.cid_repo
  unfolding create_node
  create_node-Extends intent dep repo e =
      let (nonempty, e0) = assert-eq-ok _ _ e in
      let (k, indexed, e1) = >>=-eq-ok (index intent.k_at_depth 0) _ e0 in
      let (srs, read, e2) = >>=-eq-ok (lib.read_srs_from_dir k) _ e1 in
      let (routed, route, e3) =
        >>=-eq-ok (intent_of lib intent.params.node_type k intent.params dep) _ e2 in
      let (keys, created, e4) = >>=-eq-ok (lib.create_pk_and_pinning srs routed.0) _ e3 in
      let (id, written, e5) = >>=-eq-ok (lib.write_pk_and_pinning keys.0 keys.1) _ e4 in
      let (repo2, recorded, e6) = >>=-eq-ok (record_id lib intent.params id repo) _ e5 in
      let shape = ok-injective e6 in rw (← shape) (record_id-Extends intent.params id repo recorded)

  create-Extends :
      (fuel : ℕ) (intent : RecursiveIntent) (repo : Repo CircuitId)
      {made : Made CircuitId Pk Pinning}
      → create_and_serialize_proving_key lib fuel intent repo ≡ ok made
      → Extends repo made.cid_repo
  unfolding create_and_serialize_proving_key
  create-Extends zero intent repo e = cc
  create-Extends (suc fuel) intent repo e =
      let (found, is_child, e1) = >>=-eq-ok (child_intent intent) _ e in
      elim (Option-cases found) [
        | inl bottom ↦ create_node-Extends intent none repo (rw bottom at e1)
        | inr (below, is_below) ↦
            let e2 = rw is_below at e1 in
            let (made, made_below, e3) =
              >>=-eq-ok (create_and_serialize_proving_key lib fuel below repo) _ e2 in
            let (dep, depends, e4) =
              >>=-eq-ok (dependency_of lib below.params.node_type made) _ e3 in
            λ q id had.
              create_node-Extends intent (some dep) made.cid_repo e4 q id
                (create-Extends fuel below repo made_below q id had)
      ]

  -- If the comparison of circuit ids decides their equality, and key generation ends with a
  -- result, from any table and for any intent, every entry that the table had is kept as it was.
  pub create-lookup :
      (fuel : ℕ) (intent : RecursiveIntent) (repo : Repo CircuitId)
      (made : Made CircuitId Pk Pinning) (q : NodeParams) (id : CircuitId)
      → create_and_serialize_proving_key lib fuel intent repo ≡ ok made
      → lookup q repo ≡ some id
      → lookup q made.cid_repo ≡ some id
  create-lookup fuel intent repo made q id created found =
      create-Extends fuel intent repo created q id found
