-- ===== src/Keygen/Chained.antt =====
-- Tables of circuit ids that hold the chain of nodes below a node.
use worldcoin_aggregation.Prelude.{
  ◌<◌, ◌≡◌, refl, inl, inr, true, none, some, [], ◌∷◌, ◌++◌, ok, All-append, Bool-cases,
}
use worldcoin_aggregation.Scheduler.NodeParams.{NodeParams, child}
use worldcoin_aggregation.Scheduler.NodeParams.Order.{same, less, same_refl, less_trans, less-same}
use worldcoin_aggregation.Scheduler.NodeParams.Chain.{Below, Below-split, Below-leaf, child-less}
use worldcoin_aggregation.Keygen.Table.{Repo, lookup, Before}

-- A table of all nodes from `top` down, and no others, that ends with `top`.
pub record IsTable {CircuitId : Type 0} (top : NodeParams) (id : CircuitId) (repo : Repo CircuitId)
    : Type 0 where
  pub others : Repo CircuitId
  pub before : Before top others
  pub ends : repo ≡ others ++ ((top, id) ∷ [])
  pub knows : (q : NodeParams) → Below top q → (found : CircuitId) × (lookup q repo ≡ some found)

lookup-append :
    {V : Type 0} (p q : NodeParams) (v : V) (r : Repo V)
    → (w : V) × (lookup q r ≡ some w)
    → (w : V) × (lookup q (r ++ ((p, v) ∷ [])) ≡ some w)
unfolding lookup
lookup-append p q v [] (w, e) = cc
lookup-append p q v ((k, x) ∷ rest) (w, e) = elim (Bool-cases (same q k)) [
  | inl found ↦ (x, rw found)
  | inr other ↦
      let (y, below) = lookup-append p q v rest (w, rw other at e) in (y, rw (other, below))
]

Before-trans :
    {V : Type 0} (c p : NodeParams) (r : Repo V) → less c p ≡ true → Before c r → Before p r
Before-trans c p [] first b = tt
Before-trans c p ((k, x) ∷ rest) first b =
    (less_trans k c p b.0 first, Before-trans c p rest first b.1)

lookup_last :
    {V : Type 0} (p : NodeParams) (v : V) (r : Repo V)
    → Before p r
    → lookup p (r ++ ((p, v) ∷ [])) ≡ some v
unfolding lookup
lookup_last p v [] b = rw (same_refl p)
lookup_last p v ((k, x) ∷ rest) b = rw (less-same k p b.0) (lookup_last p v rest b.1)

module _ {CircuitId : Type 0} where
  pub leaf-IsTable :
      (p : NodeParams) (id : CircuitId) → child p ≡ ok none → IsTable p id ([] ++ ((p, id) ∷ []))
  unfolding lookup
  leaf-IsTable p id bottom = record {
    others = [];
    before = tt;
    ends = refl;
    knows = λ q down. (id, rw (Below-leaf down bottom, same_refl p));
  }

  pub node-IsTable :
      (p c : NodeParams) (below id : CircuitId) (repo : Repo CircuitId)
      → child p ≡ ok (some c)
      → p.depth < 31
      → IsTable c below repo
      → Before p repo × IsTable p id (repo ++ ((p, id) ∷ []))
  node-IsTable p c below id repo found small table =
      let first = child-less p c found small in
      let all : Before p repo = rw table.ends (
        All-append (λ e. less e.0 p ≡ true) table.others _
          (Before-trans c p table.others first table.before) (first, tt)) in
      (
        all,
        record {
          others = repo;
          before = all;
          ends = refl;
          knows = λ q down. elim (Below-split down found) [
            | inl same ↦ (id, rw same (lookup_last p id repo all))
            | inr lower ↦ lookup-append p q id repo (table.knows q lower)
          ];
        },
      )
