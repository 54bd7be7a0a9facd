-- ===== src/Keygen/Table.antt =====
-- `BTreeMap<NodeParams, V>`: a list of entries, kept in the order of the keys.
use worldcoin_aggregation.Prelude.{
  ◌≡◌, refl, inl, inr, true, false, Option, none, some, List, [], ◌∷◌, ◌++◌, All, Bool-cases,
  if◌then◌else◌,
}
use worldcoin_aggregation.Scheduler.NodeParams.{NodeParams}
use worldcoin_aggregation.Scheduler.NodeParams.Order.{
  same, less, same_refl, same→≡, less_asym, less-same,
}

abbrev pub Repo : Type 0 → Type 0
Repo V = List (NodeParams × V)

module _ {V : Type 0} where
  -- `get`
  unfoldable pub lookup : NodeParams → Repo V → Option V
  lookup p [] = none
  lookup p ((q, v) ∷ rest) = if same p q then some v else lookup p rest

  -- `insert`; the value that it replaces is `lookup p` before.
  unfoldable pub insert : NodeParams → V → Repo V → Repo V
  insert p v [] = (p, v) ∷ []
  insert p v ((q, w) ∷ rest) =
      let below = insert p v rest in
      if same p q
      then (p, v) ∷ rest
      else if less p q
      then (p, v) ∷ (q, w) ∷ rest
      else (q, w) ∷ below

  pub lookup-insert : (p : NodeParams) (v : V) (r : Repo V) → lookup p (insert p v r) ≡ some v
  unfolding lookup insert
  lookup-insert p v [] = rw (same_refl p)
  lookup-insert p v ((q, w) ∷ rest) = elim (Bool-cases (same p q)) [
    | inl e ↦ rw (e, same_refl p)
    | inr other ↦ elim (Bool-cases (less p q)) [
      | inl l ↦ rw (other, l, same_refl p)
      | inr m ↦ rw (other, m, other) (lookup-insert p v rest)
    ]
  ]

  pub lookup-insert-other :
      (p q : NodeParams) (v : V) (r : Repo V)
      → same q p ≡ false
      → lookup q (insert p v r) ≡ lookup q r
  unfolding lookup insert
  lookup-insert-other p q v [] n = rw n
  lookup-insert-other p q v ((k, w) ∷ rest) n = elim (Bool-cases (same p k)) [
    | inl e ↦ let key = same→≡ p k e in let n2 : same q k ≡ false = rw (← key) n in rw (e, n, n2)
    | inr other ↦ elim (Bool-cases (less p k)) [
      | inl l ↦ rw (other, l, n)
      | inr m ↦ rw (other, m, lookup-insert-other p q v rest n)
    ]
  ]

  -- All keys of a list stand before `p`.
  abbrev pub Before : NodeParams → Repo V → Type 0
  Before p = All (λ e. less e.0 p ≡ true)

  -- A key after all others is put at the end.
  pub insert-Before :
      (p : NodeParams) (v : V) (r : Repo V) → Before p r → insert p v r ≡ r ++ ((p, v) ∷ [])
  unfolding insert
  insert-Before p v [] b = refl
  insert-Before p v ((q, w) ∷ rest) b =
      let other : same p q ≡ false = less-same q p b.0 in
      let later : less p q ≡ false = less_asym q p b.0 in
      rw (other, later, insert-Before p v rest b.1)

  pub lookup-Before : (p : NodeParams) (r : Repo V) → Before p r → lookup p r ≡ none
  unfolding lookup
  lookup-Before p [] b = refl
  lookup-Before p ((q, w) ∷ rest) b = rw (less-same q p b.0) (lookup-Before p rest b.1)
