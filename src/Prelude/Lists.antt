-- ===== src/Prelude/Lists.antt =====
-- Lists measured and indexed by native numbers, under the library's names, with what the source's
-- indexing and slicing do out of bounds.
use Prim.Native.Nat.{ℕ, zero, suc, ◌+◌, ◌-◌, ◌≤◌, min}
use mathlib.Core.Path.{◌≡◌, refl, sym, ap, ◌∙◌}
use mathlib.Core.List.{List, [], ◌∷◌, ◌++◌}
use mathlib.Core.Bool.{◌&&◌}
use mathlib.Core.Option.{Option, none, some}
use native.Mathlib.Omega.{arith}
use worldcoin_aggregation.Prelude.Tests.{leb, if◌then◌else◌, le→leb}
use worldcoin_aggregation.Prelude.Faults.{
  Result, ok, err, panic, Reason, or_fault, traverse, >>=-eq-ok, ok-injective,
}

module _ {ℓ} {A : Type ℓ} where
  abbrev pub length : List A → ℕ
  length [] = 0
  length (x ∷ xs) = suc (length xs)

  abbrev pub get_elem? : List A → ℕ → Option A
  get_elem? [] i = none
  get_elem? (x ∷ xs) zero = some x
  get_elem? (x ∷ xs) (suc i) = get_elem? xs i

  abbrev pub take : ℕ → List A → List A
  take zero xs = []
  take (suc n) [] = []
  take (suc n) (x ∷ xs) = x ∷ take n xs

  abbrev pub drop : ℕ → List A → List A
  drop zero xs = xs
  drop (suc n) [] = []
  drop (suc n) (x ∷ xs) = drop n xs

  abbrev pub replicate : ℕ → A → List A
  replicate zero a = []
  replicate (suc n) a = a ∷ replicate n a

  -- `xs[i]`
  abbrev pub index : List A → ℕ → Result A
  index xs i = or_fault (get_elem? xs i) (panic Reason.index_out_of_bounds)

  -- `xs[lo..hi]`
  unfoldable pub slice : List A → ℕ → ℕ → Result (List A)
  slice xs lo hi =
      if leb lo hi && leb hi (length xs)
      then ok (take (hi - lo) (drop lo xs))
      else err (panic Reason.index_out_of_bounds)

  -- `xs.resize(n, a)`
  abbrev pub resize : ℕ → A → List A → List A
  resize n a xs = take n xs ++ replicate (n - length xs) a

  pub length-append : (xs ys : List A) → length (xs ++ ys) ≡ length xs + length ys
  length-append [] ys = omega arith
  length-append (x ∷ xs) ys = omega (arith, length-append xs ys)

  pub length-take : (n : ℕ) (xs : List A) → length (take n xs) ≡ min n (length xs)
  length-take zero xs = omega arith
  length-take (suc n) [] = omega arith
  length-take (suc n) (x ∷ xs) = omega (arith, length-take n xs)

  pub length-drop : (n : ℕ) (xs : List A) → length (drop n xs) ≡ length xs - n
  length-drop zero xs = omega arith
  length-drop (suc n) [] = omega arith
  length-drop (suc n) (x ∷ xs) = omega (arith, length-drop n xs)

  pub length-replicate : (n : ℕ) (a : A) → length (replicate n a) ≡ n
  length-replicate zero a = refl
  length-replicate (suc n) a = ap suc (length-replicate n a)

  pub take-append-drop : (n : ℕ) (xs : List A) → take n xs ++ drop n xs ≡ xs
  take-append-drop zero xs = refl
  take-append-drop (suc n) [] = refl
  take-append-drop (suc n) (x ∷ xs) = ap (λ t. x ∷ t) (take-append-drop n xs)

  pub take-append : (xs ys : List A) → take (length xs) (xs ++ ys) ≡ xs
  take-append [] ys = refl
  take-append (x ∷ xs) ys = ap (λ t. x ∷ t) (take-append xs ys)

  pub drop-append : (xs ys : List A) → drop (length xs) (xs ++ ys) ≡ ys
  drop-append [] ys = refl
  drop-append (x ∷ xs) ys = drop-append xs ys

  pub take_all : (n : ℕ) (xs : List A) → length xs ≤ n → take n xs ≡ xs
  take_all zero [] h = refl
  take_all zero (x ∷ xs) h = elim h [ ]
  take_all (suc n) [] h = refl
  take_all (suc n) (x ∷ xs) h = ap (λ t. x ∷ t) (take_all n xs (omega arith))

module _ {ℓ} {A : Type ℓ} where
  pub slice-eq :
      (xs : List A) (lo hi : ℕ)
      → lo ≤ hi
      → hi ≤ length xs
      → slice xs lo hi ≡ ok (take (hi - lo) (drop lo xs))
  unfolding slice
  slice-eq xs lo hi p q = rw (le→leb lo hi p, le→leb hi (length xs) q)

  -- A slice of a list laid out in three parts is the middle one.
  pub slice-append :
      (xs ys zs : List A) (lo hi : ℕ)
      → lo ≡ length xs
      → hi ≡ length xs + length ys
      → slice (xs ++ (ys ++ zs)) lo hi ≡ ok ys
  slice-append xs ys zs lo hi p q =
      let len : length (xs ++ (ys ++ zs)) ≡ length xs + (length ys + length zs) =
        length-append xs (ys ++ zs) ∙ ap (λ n. length xs + n) (length-append ys zs) in
      let width : hi - lo ≡ length ys = omega arith in
      slice-eq (xs ++ (ys ++ zs)) lo hi (omega arith) (omega arith)
      ∙ rw (width, p, drop-append, take-append)

pub get-take :
    {A : Type 0} (n : ℕ) (xs : List A) (i : ℕ) {x : A}
    → get_elem? (take n xs) i ≡ some x
    → get_elem? xs i ≡ some x
get-take zero xs i h = cc
get-take (suc n) [] i h = cc
get-take (suc n) (y ∷ xs) zero h = h
get-take (suc n) (y ∷ xs) (suc i) h = get-take n xs i h

-- The results of a loop stand where its arguments do.
pub traverse-get :
    {A B : Type 0} (f : A → Result B) (xs : List A) (i : ℕ) {ys : List B} {x : A}
    → traverse f xs ≡ ok ys
    → get_elem? xs i ≡ some x
    → (y : B) × (f x ≡ ok y) × (get_elem? ys i ≡ some y)
unfolding traverse
traverse-get f [] i e at_i = cc
traverse-get f (a ∷ xs) zero {x = x} e at_i =
    let (y, first, e1) = >>=-eq-ok (f a) _ e in
    let (zs, rest, e2) = >>=-eq-ok (traverse f xs) _ e1 in
    let shape = ok-injective e2 in
    let same : a ≡ x = cc in (y, ap f (sym same) ∙ first, rw (← shape) refl)
traverse-get f (a ∷ xs) (suc i) e at_i =
    let (y, first, e1) = >>=-eq-ok (f a) _ e in
    let (zs, rest, e2) = >>=-eq-ok (traverse f xs) _ e1 in
    let shape = ok-injective e2 in rw (← shape) (traverse-get f xs i rest at_i)
