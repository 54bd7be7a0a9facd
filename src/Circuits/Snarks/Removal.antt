-- ===== src/Circuits/Snarks/Removal.antt =====
-- Removing an accumulator that stands in front leaves the instances behind it.
use mathlib.Core.List.{append_assoc}
use worldcoin_aggregation.Prelude.{
  ℕ, zero, suc, ◌<◌, ◌≡◌, refl, sym, ap, ◌∙◌, inl, inr, List, [], ◌∷◌, ◌++◌, ok, arith, leb, false,
  All, All-append, Result-cases, length, length-append, ◌>>=◌,
}
use worldcoin_aggregation.Circuits.Snarks.{
  remove, insert_desc, sorted_rev, remove_each, remove_old_accumulators,
}

-- The positions i, ..., i + n - 1, as `accumulator_indices` lists those of an accumulator.
unfoldable pub positions : ℕ → ℕ → List ℕ
positions i zero = []
positions i (suc n) = i ∷ positions (suc i) n

-- The positions i + n - 1, ..., i.
positions_down : ℕ → ℕ → List ℕ
positions_down i zero = []
positions_down i (suc n) = positions_down (suc i) n ++ i ∷ []

positions_down-above : (i k n : ℕ) → i < k → All (λ (j : ℕ). i < j) (positions_down k n)
unfolding positions_down
positions_down-above i k zero h = tt
positions_down-above i k (suc n) h =
    All-append _ (positions_down (suc k) n) (k ∷ [])
      (positions_down-above i (suc k) n (omega arith)) (h, tt)

insert_desc-last :
    (i : ℕ) (js : List ℕ) → All (λ (j : ℕ). i < j) js → insert_desc i js ≡ js ++ i ∷ []
unfolding insert_desc
insert_desc-last i [] h = refl
insert_desc-last i (j ∷ js) h =
    let keep : leb j i ≡ false = ground arith in
    rw keep (ap (λ t. j ∷ t) (insert_desc-last i js h.1))

sorted_rev-positions : (i n : ℕ) → sorted_rev (positions i n) ≡ positions_down i n
unfolding sorted_rev positions positions_down
sorted_rev-positions i zero = refl
sorted_rev-positions i (suc n) =
    rw (sorted_rev-positions (suc i) n) (
      insert_desc-last i (positions_down (suc i) n)
        (positions_down-above i (suc i) n (omega arith)))

remove-append :
    (xs : List ℕ) (a : ℕ) (ys : List ℕ) → remove (xs ++ (a ∷ ys)) (length xs) ≡ ok (xs ++ ys)
unfolding remove
remove-append [] a ys = refl
remove-append (x ∷ xs) a ys = rw (remove-append xs a ys)

remove_each-append :
    (xs is js : List ℕ)
    → remove_each xs (is ++ js) ≡ (remove_each xs is >>= λ rest. remove_each rest js)
unfolding remove_each
remove_each-append xs [] js = refl
remove_each-append xs (i ∷ is) js = elim (Result-cases (remove xs i)) [
  | inl (rest, e) ↦ rw e (remove_each-append rest is js)
  | inr (fault, e) ↦ rw e
]

remove_each-positions_down :
    (i n : ℕ) (front acc xs : List ℕ)
    → length front ≡ i
    → length acc ≡ n
    → remove_each (front ++ (acc ++ xs)) (positions_down i n) ≡ ok (front ++ xs)
unfolding remove_each positions_down
remove_each-positions_down i zero front [] xs p q = refl
remove_each-positions_down i zero front (a ∷ acc) xs p q = absurd (omega arith)
remove_each-positions_down i (suc n) front [] xs p q = absurd (omega arith)
remove_each-positions_down i (suc n) front (a ∷ acc) xs p q =
    let len : length (front ++ a ∷ []) ≡ suc i = length-append front (a ∷ []) ∙ omega arith in
    let ih = remove_each-positions_down (suc i) n (front ++ a ∷ []) acc xs len (omega arith) in
    let regroup : (zs : List ℕ) → front ++ (a ∷ zs) ≡ (front ++ a ∷ []) ++ zs =
      λ zs. sym (append_assoc front (a ∷ []) zs) in
    let last : remove (front ++ (a ∷ xs)) i ≡ ok (front ++ xs) =
      rw (← p) (remove-append front a xs) in
    rw (remove_each-append, regroup (acc ++ xs), ih, ← regroup xs, last)

-- An accumulator in the first `n` places, listed as such, is what is removed.
remove_each-accumulator :
    (n : ℕ) (acc xs : List ℕ)
    → length acc ≡ n
    → remove_each (acc ++ xs) (sorted_rev (positions 0 n)) ≡ ok xs
remove_each-accumulator n acc xs h =
    rw sorted_rev-positions (remove_each-positions_down 0 n [] acc xs refl h)

-- Of two proofs whose first n instances are accumulators, listed as such, exactly those are
-- removed.
pub remove_old_accumulators-pair :
    (n : ℕ) (acc0 acc1 xs ys : List ℕ)
    → length acc0 ≡ n
    → length acc1 ≡ n
    → remove_old_accumulators
        ((acc0 ++ xs) ∷ (acc1 ++ ys) ∷ [])
        (positions 0 n ∷ positions 0 n ∷ [])
      ≡ ok (xs ∷ ys ∷ [])
unfolding remove_old_accumulators
remove_old_accumulators-pair n acc0 acc1 xs ys p q =
    rw (remove_each-accumulator n acc0 xs p, remove_each-accumulator n acc1 ys q)
