-- ===== src/Halo2/Laws.antt =====
-- Consequences of a chip's laws, in the form in which the circuits meet them.
use native.Mathlib.Nat.{add-mod_left, mod-eq_of_lt}
use worldcoin_aggregation.Prelude.{
  ℕ, ◌+◌, ◌-◌, ◌^◌, ◌≤◌, ◌<◌, ◌≡◌, ◌∙◌, ◌⊎◌, inl, inr, none, some, Bool, true, false, arith, bit,
  ltb, Bool-cases, ◌==◌,
}
use worldcoin_aggregation.Prelude.Words.{u64_mod}
use worldcoin_aggregation.Halo2.{Chip, IsChip}

module _ {c : Chip} (chip : IsChip c) where
  pub p_large : 2 ^ 253 < c.p
  p_large = chip.p_large

  -- Below 2^64 a difference in the field is the difference of the numbers.
  pub sub-eq : (a b : ℕ) → b ≤ a → a < u64_mod → c.sub a b ≡ a - b
  sub-eq a b le lt =
      let b_lt : b < c.p = omega (arith, p_large) in
      let d_lt : a - b < c.p = omega (arith, p_large) in
      let e : a + c.p - b ≡ c.p + (a - b) = omega arith in
      rw (chip.sub_lem a b (omega (arith, p_large)) b_lt, e)
        (add-mod_left c.p (a - b) ∙ mod-eq_of_lt d_lt)

  pub add-eq : (a b : ℕ) → a < u64_mod → b < u64_mod → c.add a b ≡ a + b
  add-eq a b l m =
      let s_lt : a + b < c.p = omega (arith, p_large) in
      let a_lt : a < c.p = omega (arith, p_large) in
      chip.add_lem a b a_lt (omega (arith, p_large)) ∙ mod-eq_of_lt s_lt

  pub is_less_than_safe-lt : (a b : ℕ) → a < b → b < u64_mod → c.is_less_than_safe a b ≡ some 1
  is_less_than_safe-lt a b h l =
      ground (arith, chip.is_less_than_safe_lem a b, chip.safe_bits_lem b)

  pub is_less_than_safe-le :
      (a b : ℕ)
      → b ≤ a
      → b < u64_mod
      → (c.is_less_than_safe a b ≡ none) ⊎ (c.is_less_than_safe a b ≡ some 0)
  is_less_than_safe-le a b h l = elim (Bool-cases (ltb a (2 ^ c.safe_bits b))) [
    | inl fits ↦ inr (ground (arith, chip.is_less_than_safe_lem a b))
    | inr wide ↦ inl (ground (arith, chip.is_less_than_safe_lem a b))
  ]

  pub is_less_than_safe-ge :
      (a b : ℕ) → b ≤ a → a < 2 ^ c.safe_bits b → b < u64_mod → c.is_less_than_safe a b ≡ some 0
  is_less_than_safe-ge a b h w l = ground (arith, chip.is_less_than_safe_lem a b)

  -- The check `a == b || flag` at either value of the flag.
  assert-bit : (s : Bool) → c.assert_is_const (bit s) 1 ≡ s
  assert-bit true = chip.assert_is_const_lem 1 1
  assert-bit false = chip.assert_is_const_lem 0 1

  or-bit_false : (s : Bool) → c.or (bit s) 0 ≡ bit s
  or-bit_false true = chip.or_lem true false
  or-bit_false false = chip.or_lem false false

  or-bit_true : (s : Bool) → c.or (bit s) 1 ≡ 1
  or-bit_true true = chip.or_lem true true
  or-bit_true false = chip.or_lem false true

  pub check_equal-off : (a b : ℕ) → c.assert_is_const (c.or (c.is_equal a b) 0) 1 ≡ (a == b)
  check_equal-off a b = rw (chip.is_equal_lem, or-bit_false) (assert-bit (a == b))

  pub check_equal-on : (a b : ℕ) → c.assert_is_const (c.or (c.is_equal a b) 1) 1 ≡ true
  check_equal-on a b = rw (chip.is_equal_lem, or-bit_true) (chip.assert_is_const_lem 1 1)
