-- ===== src/Scheduler/Request/Parts.antt =====
-- Valid requests, what their dependencies are to be, and one dependency.
use worldcoin_aggregation.Prelude.{
  ℕ, ◌+◌, ◌-◌, ◌^◌, ◌≤◌, ◌<◌, ◌≡◌, refl, List, [], ◌∷◌, ◌++◌, ok, arith, All, min, length, take,
  drop, slice-eq, length-take, length-drop, traverse,
}
use worldcoin_aggregation.Prelude.Words.{add32-eq, sub32-eq, shl32-eq, shl64-eq, u32_mod}
use worldcoin_aggregation.Scheduler.NodeParams.{NodeType, NodeParams}
use worldcoin_aggregation.Scheduler.NodeParams.Children.{IsPlaced, IsChild}
use worldcoin_aggregation.Scheduler.Request.{RecursiveRequest, step_by, dependency, dependencies}

module _ {Root Claim : Type 0} where
  -- A request for at most 2^depth claims, one for every index, that do not reach the last index.
  pub record IsValid (req : RecursiveRequest Root Claim) : Type 0 where
    pub nonempty : req.start < req.end
    pub word : req.start + 2 ^ req.params.depth < u32_mod
    pub fits : req.end ≤ req.start + 2 ^ req.params.depth
    pub counted : length req.claims ≡ req.end - req.start
    pub placed : IsPlaced req.params.node_type req.params.depth req.params.initial_depth
    pub small : req.params.depth < 31

  -- The ranges follow each other, from the first index to the second.
  abbrev pub Consecutive : ℕ → List (RecursiveRequest Root Claim) → ℕ → Type 0
  Consecutive i [] j = i ≡ j
  Consecutive i (r ∷ rs) j = (r.start ≡ i) × Consecutive r.end rs j

  abbrev pub claims_of : List (RecursiveRequest Root Claim) → List Claim
  claims_of [] = []
  claims_of (r ∷ rs) = r.claims ++ claims_of rs

  -- Of two parts the first is full.
  abbrev pub FirstIsFull : List (RecursiveRequest Root Claim) → Type 0
  FirstIsFull (r ∷ r' ∷ rs) = r.end ≡ r.start + 2 ^ r.params.depth
  FirstIsFull (r ∷ []) = Unit
  FirstIsFull [] = Unit

  pub record IsDependency (req dep : RecursiveRequest Root Claim) : Type 0 where
    pub valid : IsValid dep
    pub same_root : dep.root ≡ req.root
    pub is_child : IsChild req.params dep.params

  pub record Splits (req : RecursiveRequest Root Claim) (deps : List (RecursiveRequest Root Claim))
      : Type 0 where
    pub consecutive : Consecutive req.start deps req.end
    pub claims : claims_of deps ≡ req.claims
    pub each : All (IsDependency req) deps
    pub some_dep : 0 < length deps
    pub at_most_two : length deps ≤ 2
    pub full : FirstIsFull deps
    pub one_for_evm : (round : ℕ) → req.params.node_type ≡ NodeType.evm round → length deps ≡ 1

  -- The claims [i, j) of a request.
  abbrev pub part : RecursiveRequest Root Claim → NodeParams → ℕ → ℕ → RecursiveRequest Root Claim
  part req q i j = record {
    start = i;
    end = j;
    root = req.root;
    claims = take (j - i) (drop (i - req.start) req.claims);
    params = q;
  }

  pub dependency-eq :
      (req : RecursiveRequest Root Claim) (q : NodeParams) (i j : ℕ)
      → IsValid req
      → q.depth < 31
      → req.start ≤ i
      → i ≤ j
      → j ≤ req.end
      → i + 2 ^ q.depth < u32_mod
      → j ≡ min req.end (i + 2 ^ q.depth)
      → dependency req q i ≡ ok (part req q i j)
  unfolding dependency
  dependency-eq req q i j v small lo mid hi word e =
      let width : j - req.start - (i - req.start) ≡ j - i = omega arith in
      rw (
        shl32-eq q.depth (omega arith),
        add32-eq i (2 ^ q.depth) word,
        ← e,
        sub32-eq i req.start lo (omega arith),
        sub32-eq j req.start (omega arith) (omega arith),
        slice-eq req.claims (i - req.start) (j - req.start) (omega arith)
            (omega (arith, v.counted)),
        width,
      )

  pub part-IsDependency :
      (req : RecursiveRequest Root Claim) (q : NodeParams) (i j : ℕ)
      → IsValid req
      → IsChild req.params q
      → q.depth < 31
      → req.start ≤ i
      → i < j
      → j ≤ req.end
      → j ≤ i + 2 ^ q.depth
      → i + 2 ^ q.depth < u32_mod
      → IsDependency req (part req q i j)
  part-IsDependency req q i j v is small lo mid hi fits word = record {
    valid = record {
      nonempty = mid;
      word = word;
      fits = fits;
      counted = omega (
        arith,
        v.counted,
        length-take (j - i) (drop (i - req.start) req.claims),
        length-drop (i - req.start) req.claims,
      );
      placed = is.placed;
      small = small;
    };
    same_root = refl;
    is_child = is;
  }

  -- `dependencies` above the leaves, with the child's parameters filled in.
  pub dependencies-eq :
      (req : RecursiveRequest Root Claim) (q : NodeParams)
      → IsValid req
      → req.params.initial_depth < req.params.depth
      → IsChild req.params q
      → q.depth < 31
      → dependencies req ≡ traverse (dependency req q) (step_by req.start req.end (2 ^ q.depth))
  unfolding dependencies
  dependencies-eq req q v above is small = ground (
    arith,
    v.small,
    is.found,
    shl32-eq req.params.depth,
    shl64-eq q.depth,
    sub32-eq req.end req.start,
    v.nonempty,
    v.fits,
    v.word,
  )
