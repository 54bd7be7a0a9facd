-- ===== src/Circuits/Shared/Range.antt =====
-- The header that joining two proofs shows.
use native.Mathlib.Nat.{pow-suc}
use worldcoin_aggregation.Prelude.{ℕ, suc, ◌+◌, ◌≡◌, ap, inl, inr, arith}
use worldcoin_aggregation.Circuits.Shared.Spec.{Header, extend, IsRange, JoinedRange}

-- The range of the joined proof is a range of the next depth.
pub JoinedRange-IsRange :
    (d n : ℕ) {h0 h1 : Header} {e : ℕ × ℕ}
    → IsRange d h0
    → IsRange d h1
    → JoinedRange d n h0 h1 e
    → IsRange (suc d) (extend h0 e.0)
JoinedRange-IsRange d n r0 r1 (inl (alone, shown)) =
    let new_end = ap (λ (t : ℕ × ℕ). t.0) shown in omega (arith, pow-suc 2 d)
JoinedRange-IsRange d n r0 r1 (inr (chained, shown)) =
    let new_end = ap (λ (t : ℕ × ℕ). t.0) shown in omega (arith, pow-suc 2 d)

-- The number of claims that the joined proof shows is the one that it was built for.
pub JoinedRange-count :
    (d n : ℕ) {h0 h1 : Header} {e : ℕ × ℕ} → JoinedRange d n h0 h1 e → e.0 ≡ h0.start + n
JoinedRange-count d n (inl (alone, shown)) =
    let new_end = ap (λ (t : ℕ × ℕ). t.0) shown in omega arith
JoinedRange-count d n (inr (chained, shown)) =
    let new_end = ap (λ (t : ℕ × ℕ). t.0) shown in omega arith
