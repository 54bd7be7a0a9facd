-- ===== src/System/Ranges.antt =====
-- The headers of two proofs that a node joins.
use native.Mathlib.Nat.{pow-suc}
use worldcoin_aggregation.Prelude.{
  ℕ, suc, ◌+◌, ◌-◌, ◌*◌, ◌^◌, ◌≤◌, ◌<◌, ◌≡◌, ◌⊎◌, refl, inl, inr, false, arith, ltb, ok,
}
use worldcoin_aggregation.Prelude.Words.{sub32, sub32-eq, shl32-eq, u32_mod, pow_mono}
use worldcoin_aggregation.Circuits.Shared.Spec.{Header, IsRange, SameBatch, Alone, Chained}
use worldcoin_aggregation.Circuits.Snarks.{Snark}
use worldcoin_aggregation.Scheduler.Factory.{check_root}
use worldcoin_aggregation.System.Honest.{Terms, header_for}
use worldcoin_aggregation.System.Snarks.{node_of}

pub record Linked (d n : ℕ) (h h1 : Header) : Type 0 where
  pub range : IsRange d h
  pub range1 : IsRange d h1
  pub same : SameBatch h h1
  pub parts : Alone d n h ⊎ Chained d n h h1

module _ {Root Claim : Type 0} (t : Terms Root Claim) where
  one-IsRange :
      (d start end : ℕ)
      → start < end
      → end < u32_mod
      → end ≤ start + 2 ^ d
      → IsRange d (header_for t start end)
  one-IsRange d start end pos word fits = record { nonempty = pos; word = omega arith; fits = fits }

  pub one-Linked :
      (d start end : ℕ)
      → start < end
      → end < u32_mod
      → end ≤ start + 2 ^ d
      → Linked d (end - start) (header_for t start end) (header_for t start end)
  one-Linked d start end pos word fits = record {
    range = one-IsRange d start end pos word fits;
    range1 = one-IsRange d start end pos word fits;
    same = record { same_hi = refl; same_lo = refl; same_root = refl };
    parts = inl (record { small = omega arith; count = omega arith });
  }

  pub two-Linked :
      (d start mid end : ℕ)
      → mid ≡ start + 2 ^ d
      → mid < end
      → end < u32_mod
      → end ≤ mid + 2 ^ d
      → Linked d (end - start) (header_for t start mid) (header_for t mid end)
  two-Linked d start mid end full more word fits =
      let pos = pow_mono 0 d (omega arith) in
      record {
        range = one-IsRange d start mid (omega arith) (omega arith) (omega arith);
        range1 = one-IsRange d mid end more word fits;
        same = record { same_hi = refl; same_lo = refl; same_root = refl };
        parts =
            inr (record { large = omega arith; linked = refl; full = full; count = omega arith });
      }

-- The number of claims of a node.
pub Linked-count : {d n : ℕ} {h h1 : Header} → Linked d n h h1 → n ≤ 2 * 2 ^ d
Linked-count l = elim l.parts [
  | inl alone ↦ omega (arith, alone.small)
  | inr chained ↦ omega (arith, chained.count, chained.linked, chained.full, l.range1.fits)
]

pub counted : (start end : ℕ) → start < end → end < u32_mod → sub32 end start ≡ end - start
counted start end pos word = sub32-eq end start (omega arith) word

-- The checks of the root factory.
pub check_root-eq :
    (d i start end : ℕ) (x y : Snark)
    → start < end
    → end < u32_mod
    → d < 30
    → end - start ≤ 2 * 2 ^ d
    → check_root (node_of start end (suc d) i x y) ≡ ok (end - start)
unfolding check_root
check_root-eq d i start end x y pos word small few =
    let ordered : ltb end start ≡ false = ground arith in
    let fits : ltb (2 ^ suc d) (end - start) ≡ false = ground (arith, pow-suc 2 d) in
    rw (ordered, counted start end pos word, shl32-eq (suc d) (omega arith), fits)
