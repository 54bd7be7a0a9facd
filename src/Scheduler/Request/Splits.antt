-- ===== src/Scheduler/Request/Splits.antt =====
-- The requests that a request depends on split its claims in order, at most two at a time.
use mathlib.Core.List.{append-nil}
use native.Mathlib.Nat.{pow-suc}
use worldcoin_aggregation.Prelude.{
  suc, ◌+◌, ◌-◌, ◌*◌, ◌^◌, ◌≤◌, ◌<◌, ◌≡◌, refl, sym, ap, ◌∙◌, inl, inr, List, [], ◌∷◌, ok, arith,
  drop, take_all, length-drop, take-append-drop, traverse, ltb, Bool-cases, ◌==◌,
}
use worldcoin_aggregation.Prelude.Words.{pow_mono, u32_mod}
use worldcoin_aggregation.Scheduler.NodeParams.{NodeParams}
use worldcoin_aggregation.Scheduler.NodeParams.Children.{
  IsChild, child_depth, child_depth-bounds, child_lem,
}
use worldcoin_aggregation.Scheduler.Request.Steps.{step_by-one, step_by-two}
use worldcoin_aggregation.Scheduler.Request.{RecursiveRequest, dependencies}
pub use worldcoin_aggregation.Scheduler.Request.Parts.{
  IsValid, Consecutive, claims_of, FirstIsFull, IsDependency, Splits,
}
use worldcoin_aggregation.Scheduler.Request.Parts.{
  part, dependency-eq, part-IsDependency, dependencies-eq,
}

module _ {Root Claim : Type 0} where
  one_part :
      (req : RecursiveRequest Root Claim) (q : NodeParams)
      → IsValid req
      → req.params.initial_depth < req.params.depth
      → IsChild req.params q
      → q.depth < 31
      → 2 ^ q.depth ≤ 2 ^ req.params.depth
      → req.end ≤ req.start + 2 ^ q.depth
      → (deps : List (RecursiveRequest Root Claim)) × (dependencies req ≡ ok deps) × Splits req deps
  unfolding traverse
  one_part req q v above is small grows fits =
      let split =
        part-IsDependency req q req.start req.end v is small (omega arith) v.nonempty (omega arith)
          fits (omega (arith, v.word)) in
      let same : req.start - req.start ≡ 0 = omega arith in
      (
        part req q req.start req.end ∷ [],
        rw (
          dependencies-eq req q v above is small,
          step_by-one req.start req.end (2 ^ q.depth) v.nonempty fits,
          dependency-eq req q req.start req.end v small (omega arith) (omega (arith, v.nonempty))
              (omega arith) (omega (arith, v.word)) (omega arith),
        ),
        record {
          consecutive = (refl, refl);
          claims =
              append-nil _
              ∙ rw same (take_all (req.end - req.start) req.claims (omega (arith, v.counted)));
          each = (split, tt);
          some_dep = omega arith;
          at_most_two = omega arith;
          full = tt;
          one_for_evm = λ round e. refl;
        },
      )

  two_parts :
      (req : RecursiveRequest Root Claim) (q : NodeParams)
      → IsValid req
      → req.params.initial_depth < req.params.depth
      → IsChild req.params q
      → q.depth < 31
      → suc q.depth ≡ req.params.depth
      → req.start + 2 ^ q.depth < req.end
      → (deps : List (RecursiveRequest Root Claim)) × (dependencies req ≡ ok deps) × Splits req deps
  unfolding traverse
  two_parts req q v above is small next more =
      let s = 2 ^ q.depth in
      let m = req.start + s in
      let pos : 2 ^ 0 ≤ s = pow_mono 0 q.depth (omega arith) in
      let twice : 2 ^ req.params.depth ≡ 2 * s =
        ap (λ k. 2 ^ k) (sym next) ∙ omega (arith, pow-suc 2 q.depth) in
      let room : m + s < u32_mod = omega (arith, v.word) in
      let first =
        part-IsDependency req q req.start m v is small (omega arith) (omega arith) (omega arith)
          (omega arith) (omega arith) in
      let second =
        part-IsDependency req q m req.end v is small (omega arith) more (omega arith)
          (omega (arith, v.fits)) room in
      let same : req.start - req.start ≡ 0 = omega arith in
      let width : m - req.start ≡ s = omega arith in
      (
        part req q req.start m ∷ part req q m req.end ∷ [],
        rw (
          dependencies-eq req q v above is small,
          step_by-two req.start req.end s pos more (omega (arith, v.fits)),
          dependency-eq req q req.start m v small (omega arith) (omega arith) (omega arith)
              (omega arith) (omega arith),
          dependency-eq req q m req.end v small (omega arith) (omega arith) (omega arith) room
              (omega (arith, v.fits)),
        ),
        record {
          consecutive = (refl, (refl, refl));
          claims =
              rw
                (
                  same,
                  width,
                  append-nil,
                  take_all (req.end - m) (drop s req.claims)
                      (omega (arith, v.counted, length-drop s req.claims)),
                )
                (take-append-drop s req.claims);
          each = (first, (second, tt));
          some_dep = omega arith;
          at_most_two = omega arith;
          full = refl;
          one_for_evm = λ round e.
              let same_depth : child_depth req.params.node_type req.params.depth
                  ≡ req.params.depth =
                ap (λ t. child_depth t req.params.depth) e in
              absurd (omega (arith, is.below));
        },
      )

  -- Above the leaves a valid request has dependencies, without a panic: their ranges follow each
  -- other from start to end, their claims are those of the request in order, each is a valid
  -- request for the child node, one level lower, with the same root, and there are one or two,
  -- only one for an EVM node, and of two the first is full.
  pub dependencies-Splits :
      (req : RecursiveRequest Root Claim)
      → IsValid req
      → req.params.initial_depth < req.params.depth
      → (deps : List (RecursiveRequest Root Claim)) × (dependencies req ≡ ok deps) × Splits req deps
  dependencies-Splits req v above =
      let (q, is) = child_lem req.params v.placed above v.small in
      let (lo, hi) = child_depth-bounds req.params.node_type req.params.depth in
      let grows : 2 ^ q.depth ≤ 2 ^ req.params.depth =
        pow_mono q.depth req.params.depth (omega (arith, is.below)) in
      let small : q.depth < 31 = omega (arith, is.below, v.small) in
      elim (Bool-cases (ltb (req.start + 2 ^ q.depth) req.end)) [
        | inl more ↦ elim (Bool-cases (q.depth == req.params.depth)) [
          | inl same ↦
              let eq : 2 ^ q.depth ≡ 2 ^ req.params.depth = ap (λ k. 2 ^ k) (ground arith) in
              absurd (ground (arith, v.fits))
          | inr other ↦ two_parts req q v above is small (ground (arith, is.below)) (ground arith)
        ]
        | inr fits ↦ one_part req q v above is small grows (ground arith)
      ]
