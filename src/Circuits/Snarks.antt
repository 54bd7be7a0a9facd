-- ===== src/Circuits/Snarks.antt =====
-- The proofs that an aggregation circuit verifies, and the removal of their accumulators, which
-- circuit/src/circuits/{v1,v2}/{intermediate,root}.rs share.
pub mod Removal
use worldcoin_aggregation.Prelude.{
  ℕ, zero, suc, ◌≡◌, Bool, true, false, not, ◌&&◌, ◌||◌, List, [], ◌∷◌, map, Result, ok, err, panic,
  Reason, leb, length, bail_if, if◌then◌else◌, ltb, ◌==◌, ◌>>=◌, ◌>>◌,
}
use worldcoin_aggregation.Prelude.Words.{word64}

-- `snark_verifier_sdk::Snark`: what the program reads of it, its one column of public instances and
-- the positions of its accumulator there.
pub record Snark : Type 0 where
  pub instances : List ℕ
  pub accumulator_indices : List ℕ

-- The aggregator of `snark_verifier_sdk`, which is outside the repository: the constraints that
-- verify some proofs give the old instances and the columns of the new ones, or fail.
pub record Aggregator : Type 0 where
  pub num_fe_accumulator : ℕ
  pub aggregate_snarks : List Snark → Result (List (List ℕ) × List ℕ)

abbrev pub get_accumulator_indices : List Snark → List (List ℕ)
get_accumulator_indices = map (λ (s : Snark). s.accumulator_indices)

unfoldable pub any {ℓ} : {A : Type ℓ} → (A → Bool) → List A → Bool
any p [] = false
any p (x ∷ xs) = p x || any p xs

abbrev is_empty : List ℕ → Bool
is_empty [] = true
is_empty (x ∷ xs) = false

-- The checks on the accumulators that every aggregation circuit makes of the proofs below it.
unfoldable pub check_accumulators : Aggregator → List (List ℕ) → ℕ → ℕ → Result (Unit {0})
check_accumulators a prev_acc_indices max_depth initial_depth = do
  bail_if
      (max_depth == word64 (suc initial_depth) && any (λ is. not (is_empty is)) prev_acc_indices)
      Reason.has_accumulator
  bail_if
      (ltb (word64 (suc initial_depth)) max_depth
        && any (λ is. not (length is == a.num_fe_accumulator)) prev_acc_indices)
      Reason.not_an_aggregation

-- `Vec::remove`
unfoldable pub remove : List ℕ → ℕ → Result (List ℕ)
remove [] i = err (panic Reason.index_out_of_bounds)
remove (x ∷ xs) zero = ok xs
remove (x ∷ xs) (suc i) = do rest ← remove xs i; ok (x ∷ rest)

unfoldable pub insert_desc : ℕ → List ℕ → List ℕ
insert_desc i [] = i ∷ []
insert_desc i (j ∷ js) = let rest = insert_desc i js in if leb j i then i ∷ j ∷ js else j ∷ rest

-- `.sorted().rev()`
unfoldable pub sorted_rev : List ℕ → List ℕ
sorted_rev [] = []
sorted_rev (i ∷ is) = insert_desc i (sorted_rev is)

unfoldable pub remove_each : List ℕ → List ℕ → Result (List ℕ)
remove_each xs [] = ok xs
remove_each xs (i ∷ is) = do rest ← remove xs i; remove_each rest is

-- `for (..) in prev_instances.iter_mut().zip_eq(prev_acc_indices) { .. prev_instance.remove(i) .. }`
unfoldable pub remove_old_accumulators : List (List ℕ) → List (List ℕ) → Result (List (List ℕ))
remove_old_accumulators [] [] = ok []
remove_old_accumulators [] (is ∷ iss) = err (panic Reason.assertion)
remove_old_accumulators (xs ∷ xss) [] = err (panic Reason.assertion)
remove_old_accumulators (xs ∷ xss) (is ∷ iss) = do
  cleaned ← remove_each xs (sorted_rev is)
  rest ← remove_old_accumulators xss iss
  ok (cleaned ∷ rest)

-- `prev_instances.try_into::<[_; 2]>().unwrap()`
abbrev pub pair_of : List (List ℕ) → Result (List ℕ × List ℕ)
pair_of (x ∷ y ∷ []) = ok (x, y)
pair_of _ = err (panic Reason.unwrap_none)
