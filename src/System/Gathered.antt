-- ===== src/System/Gathered.antt =====
-- From the dependencies of a request to the two proofs that its node joins.
use mathlib.Core.List.{append-nil}
use worldcoin_aggregation.Prelude.{
  ℕ, suc, ◌+◌, ◌-◌, ◌^◌, ◌<◌, ◌≡◌, refl, sym, ap, ◌∙◌, inl, inr, List, [], ◌∷◌, ◌++◌, Result, ok,
  arith, All, traverse, length,
}
use worldcoin_aggregation.Circuits.Snarks.{Snark}
use worldcoin_aggregation.Scheduler.NodeParams.Children.{IsJoining, child_depth}
use worldcoin_aggregation.Scheduler.NodeParams.{NodeType}
use worldcoin_aggregation.Scheduler.Request.{RecursiveRequest}
use worldcoin_aggregation.Scheduler.Request.Splits.{IsValid, IsDependency, Splits}
use worldcoin_aggregation.Scheduler.Local.{two_snarks}
use worldcoin_aggregation.System.Tree.{Showing, Halves}

All-append_front :
    {A : Type 0} (P : A → Type 0) (xs ys : List A) → All P (xs ++ ys) → All P xs × All P ys
All-append_front P [] ys h = (tt, h)
All-append_front P (x ∷ xs) ys h =
    let (front, back) = All-append_front P xs ys h.1 in ((h.0, front), back)

pub joining-depth : (t : NodeType) (d : ℕ) → IsJoining t → child_depth t d ≡ d - 1
joining-depth NodeType.leaf d j = absurd j
joining-depth NodeType.intermediate d j = refl
joining-depth NodeType.root d j = refl
joining-depth (NodeType.evm round) d j = absurd j

Shows-cast :
    {Claim : Type 0} (Shows : Showing Claim) {a b a' b' : ℕ} {xs ys : List Claim} {sn : Snark}
    → a ≡ a'
    → b ≡ b'
    → xs ≡ ys
    → Shows a b xs sn
    → Shows a' b' ys sn
Shows-cast Shows p q r shown = rw (← p, ← q, ← r) shown

module _ {Root Claim : Type 0} (Shows : Showing Claim) (IsGood : Claim → Type 0) where
  -- The proofs of the dependencies, and the two that the node joins.
  pub record Gathered (width : ℕ) (req : RecursiveRequest Root Claim)
      (gen : RecursiveRequest Root Claim → Result Snark) (deps : List (RecursiveRequest Root Claim))
      : Type 0 where
    pub snarks : List Snark
    pub gathered : traverse gen deps ≡ ok snarks
    pub counted : 0 < length snarks
    pub x : Snark
    pub y : Snark
    pub two : two_snarks snarks ≡ ok (x ∷ y ∷ [])
    pub halves : Halves Shows width req.start req.end req.claims x y

  module _ (d : ℕ) (req : RecursiveRequest Root Claim) (v : IsValid req)
      (joining : IsJoining req.params.node_type) (deep : req.params.depth ≡ suc d)
      (gen : RecursiveRequest Root Claim → Result Snark) (good : All IsGood req.claims)
      (below : (dep : RecursiveRequest Root Claim)
        → IsDependency req dep
        → All IsGood dep.claims
        → (sn : Snark) × (gen dep ≡ ok sn) × Shows dep.start dep.end dep.claims sn) where
    dep_width :
        (dep : RecursiveRequest Root Claim) → IsDependency req dep → 2 ^ dep.params.depth ≡ 2 ^ d
    dep_width dep is =
        ap (λ n. 2 ^ n)
          (is.is_child.below
            ∙ (joining-depth req.params.node_type req.params.depth joining ∙ omega arith))

    gather-one :
        (r : RecursiveRequest Root Claim) → Splits req (r ∷ []) → Gathered (2 ^ d) req gen (r ∷ [])
    unfolding traverse two_snarks
    gather-one r splits =
        let (from, to) = splits.consecutive in
        let is : IsDependency req r = splits.each.0 in
        let claims : r.claims ≡ req.claims = sym (append-nil r.claims) ∙ splits.claims in
        let (sn, made, shown) = below r is (rw claims good) in
        let width = dep_width r is in
        record {
          snarks = sn ∷ [];
          gathered = rw made;
          counted = omega arith;
          x = sn;
          y = sn;
          two = refl;
          halves = inl (record {
            fits = omega (arith, is.valid.fits);
            count = v.counted;
            shows = Shows-cast Shows from to claims shown;
            same = refl;
          });
        }

    gather-two :
        (r r' : RecursiveRequest Root Claim)
        → Splits req (r ∷ r' ∷ [])
        → Gathered (2 ^ d) req gen (r ∷ r' ∷ [])
    unfolding traverse two_snarks
    gather-two r r' splits =
        let (from, (middle, to)) = splits.consecutive in
        let is : IsDependency req r = splits.each.0 in
        let is' : IsDependency req r' = splits.each.1.0 in
        let claims : r.claims ++ r'.claims ≡ req.claims =
          ap (λ (cs : List Claim). r.claims ++ cs) (sym (append-nil r'.claims)) ∙ splits.claims in
        let (front, back) = All-append_front IsGood r.claims r'.claims (rw claims good) in
        let (sn, made, shown) = below r is front in
        let (sn', made', shown') = below r' is' back in
        let width = dep_width r is in
        let width' = dep_width r' is' in
        let full : r.end ≡ r.start + 2 ^ r.params.depth = splits.full in
        record {
          snarks = sn ∷ sn' ∷ [];
          gathered = rw (made, made');
          counted = omega arith;
          x = sn;
          y = sn';
          two = refl;
          halves = inr (record {
            mid = r.end;
            xs = r.claims;
            ys = r'.claims;
            full = omega arith;
            more = omega (arith, is'.valid.nonempty);
            fits = omega (arith, is'.valid.fits);
            count_xs = omega (arith, is.valid.counted);
            count_ys = omega (arith, is'.valid.counted);
            first = Shows-cast Shows from refl refl shown;
            second = Shows-cast Shows middle to refl shown';
            whole = claims;
          });
        }

    -- In both cases the node joins two proofs that show its claims.
    pub gather :
        (deps : List (RecursiveRequest Root Claim))
        → Splits req deps
        → Gathered (2 ^ d) req gen deps
    gather [] splits = absurd (omega (arith, splits.some_dep))
    gather (r ∷ []) splits = gather-one r splits
    gather (r ∷ r' ∷ []) splits = gather-two r r' splits
    gather (r ∷ r' ∷ r'' ∷ rest) splits = absurd (omega (arith, splits.at_most_two))
