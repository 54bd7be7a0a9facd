-- ===== src/System/Fill.antt =====
-- The claims that a proof of the V1 tree shows for those of its request, by a recursion of its own: a
-- leaf repeats its first claim up to its size, a node that needs one half shows it twice, and
-- any other node divides the claims after as many as the first half can have.
use native.Mathlib.Nat.{pow-suc}
use worldcoin_aggregation.Prelude.{
  ℕ, zero, suc, ◌+◌, ◌-◌, ◌*◌, ◌^◌, ◌≤◌, ◌<◌, ◌≡◌, refl, sym, ap, ◌∙◌, inl, inr, false, List, [],
  ◌∷◌, ◌++◌, arith, All, All-append, length, take, drop, resize, replicate, leb, le→leb,
  length-append, length-take, length-drop, length-replicate, take-append, drop-append, take_all,
  take-append-drop, Bool-cases, if◌then◌else◌,
}
use worldcoin_aggregation.Prelude.Words.{pow_mono}

pub double : (i k : ℕ) → 2 ^ (i + suc k) ≡ 2 * 2 ^ (i + k)
double i k =
    let e : i + suc k ≡ suc (i + k) = omega arith in rw e (omega (arith, pow-suc 2 (i + k)))

module _ {A : Type 0} where
  abbrev pub pad : ℕ → List A → List A
  pad n [] = []
  pad n (x ∷ xs) = resize n x (x ∷ xs)

  unfoldable pub fill : ℕ → ℕ → List A → List A
  fill initial_depth zero xs = pad (2 ^ initial_depth) xs
  fill initial_depth (suc k) xs =
      let half = 2 ^ (initial_depth + k) in
      let once = fill initial_depth k xs in
      let first = fill initial_depth k (take half xs) in
      let second = fill initial_depth k (drop half xs) in
      if leb (length xs) half then once ++ once else first ++ second

  pub fill-one :
      (i k : ℕ) (xs : List A)
      → length xs ≤ 2 ^ (i + k)
      → fill i (suc k) xs ≡ fill i k xs ++ fill i k xs
  unfolding fill
  fill-one i k xs h = rw (le→leb _ _ h)

  pub fill-two :
      (i k : ℕ) (xs ys : List A)
      → length xs ≡ 2 ^ (i + k)
      → 0 < length ys
      → fill i (suc k) (xs ++ ys) ≡ fill i k xs ++ fill i k ys
  unfolding fill
  fill-two i k xs ys h some_more =
      let len = length-append xs ys in
      let more : leb (length (xs ++ ys)) (2 ^ (i + k)) ≡ false = ground arith in
      rw (more, ← h, take-append, drop-append)

  length-pad : (n : ℕ) (xs : List A) → 0 < length xs → length xs ≤ n → length (pad n xs) ≡ n
  length-pad n [] some_claim h = elim some_claim [ ]
  length-pad n (x ∷ xs) some_claim h =
      length-append (take n (x ∷ xs)) (replicate (n - length (x ∷ xs)) x)
      ∙ omega (arith, length-take n (x ∷ xs), length-replicate (n - length (x ∷ xs)) x)

  -- The size of the tree.
  pub length-fill :
      (i k : ℕ) (xs : List A)
      → 0 < length xs
      → length xs ≤ 2 ^ (i + k)
      → length (fill i k xs) ≡ 2 ^ (i + k)
  unfolding fill
  length-fill i zero xs pos h =
      let e : i + 0 ≡ i = omega arith in rw e (length-pad (2 ^ i) xs pos (rw e at h))
  length-fill i (suc k) xs pos h = elim (Bool-cases (leb (length xs) (2 ^ (i + k)))) [
    | inl one ↦
        let once = length-fill i k xs pos (ground arith) in
        rw one (length-append (fill i k xs) (fill i k xs) ∙ omega (arith, once, double i k))
    | inr two ↦
        let half = 2 ^ (i + k) in
        let more : half < length xs = ground arith in
        let first =
          length-fill i k (take half xs)
            (omega (arith, length-take half xs, pow_mono 0 (i + k) (omega arith)))
            (omega (arith, length-take half xs)) in
        let second =
          length-fill i k (drop half xs) (omega (arith, length-drop half xs))
            (omega (arith, length-drop half xs, double i k)) in
        rw two (
          length-append (fill i k (take half xs)) (fill i k (drop half xs))
          ∙ omega (arith, first, second, double i k))
  ]

  take-longer : (n : ℕ) (xs ys : List A) → n ≤ length xs → take n (xs ++ ys) ≡ take n xs
  take-longer zero xs ys h = refl
  take-longer (suc n) [] ys h = elim h [ ]
  take-longer (suc n) (x ∷ xs) ys h = ap (λ t. x ∷ t) (take-longer n xs ys (omega arith))

  take-beyond :
      (n m : ℕ) (xs ys : List A) → length xs ≡ m → take (m + n) (xs ++ ys) ≡ xs ++ take n ys
  take-beyond n zero [] ys h = let e : 0 + n ≡ n = omega arith in rw e
  take-beyond n zero (x ∷ xs) ys h = absurd (omega arith)
  take-beyond n (suc m) [] ys h = absurd (omega arith)
  take-beyond n (suc m) (x ∷ xs) ys h =
      let e : suc m + n ≡ suc (m + n) = omega arith in
      rw e (ap (λ t. x ∷ t) (take-beyond n m xs ys (omega arith)))

  -- The claims come first, each once and in order.
  pub take-fill :
      (i k : ℕ) (xs : List A)
      → 0 < length xs
      → length xs ≤ 2 ^ (i + k)
      → take (length xs) (fill i k xs) ≡ xs
  unfolding fill
  take-fill i zero [] pos h = refl
  take-fill i zero (x ∷ xs) pos h =
      let e : i + 0 ≡ i = omega arith in
      let all = take_all (2 ^ i) (x ∷ xs) (rw e at h) in
      rw all (take-append (x ∷ xs) (replicate (2 ^ i - length (x ∷ xs)) x))
  take-fill i (suc k) xs pos h = elim (Bool-cases (leb (length xs) (2 ^ (i + k)))) [
    | inl one ↦
        let len = length-fill i k xs pos (ground arith) in
        rw one (
          take-longer (length xs) (fill i k xs) (fill i k xs) (ground arith)
          ∙ take-fill i k xs pos (ground arith))
    | inr two ↦
        let half = 2 ^ (i + k) in
        let more : half < length xs = ground arith in
        let some_half = pow_mono 0 (i + k) (omega arith) in
        let front : length (take half xs) ≡ half = omega (arith, length-take half xs) in
        let back : length (drop half xs) ≡ length xs - half = length-drop half xs in
        let first_len = length-fill i k (take half xs) (omega arith) (omega arith) in
        let first : fill i k (take half xs) ≡ take half xs =
          sym (take_all half (fill i k (take half xs)) (omega arith))
          ∙ (ap (λ n. take n (fill i k (take half xs))) (sym front)
              ∙ take-fill i k (take half xs) (omega arith) (omega arith)) in
        let second : take (length xs - half) (fill i k (drop half xs)) ≡ drop half xs =
          ap (λ n. take n (fill i k (drop half xs))) (sym back)
          ∙ take-fill i k (drop half xs) (omega arith) (omega (arith, double i k)) in
        let e : length xs ≡ half + (length xs - half) = omega arith in
        rw two (
          ap (λ n. take n (fill i k (take half xs) ++ fill i k (drop half xs))) e
          ∙ (take-beyond (length xs - half) half (fill i k (take half xs)) (fill i k (drop half xs))
                first_len
              ∙ (rw (first, second) (take-append-drop half xs))))
  ]

All-take : {A : Type 0} (P : A → Type 0) (n : ℕ) (xs : List A) → All P xs → All P (take n xs)
All-take P zero xs h = tt
All-take P (suc n) [] h = tt
All-take P (suc n) (x ∷ xs) h = (h.0, All-take P n xs h.1)

All-replicate : {A : Type 0} (P : A → Type 0) (n : ℕ) (x : A) → P x → All P (replicate n x)
All-replicate P zero x h = tt
All-replicate P (suc n) x h = (h, All-replicate P n x h)

pub All-pad : {A : Type 0} (P : A → Type 0) (n : ℕ) (xs : List A) → All P xs → All P (pad n xs)
All-pad P n [] h = tt
All-pad P n (x ∷ xs) h =
    All-append P (take n (x ∷ xs)) (replicate (n - length (x ∷ xs)) x) (All-take P n (x ∷ xs) h)
      (All-replicate P (n - length (x ∷ xs)) x h.0)

All-drop : {A : Type 0} (P : A → Type 0) (n : ℕ) (xs : List A) → All P xs → All P (drop n xs)
All-drop P zero xs h = h
All-drop P (suc n) [] h = tt
All-drop P (suc n) (x ∷ xs) h = All-drop P n xs h.1

-- No other claims are shown.
pub All-fill :
    {A : Type 0} (P : A → Type 0) (i k : ℕ) (xs : List A) → All P xs → All P (fill i k xs)
unfolding fill
All-fill P i zero xs h = All-pad P (2 ^ i) xs h
All-fill P i (suc k) xs h = elim (Bool-cases (leb (length xs) (2 ^ (i + k)))) [
  | inl one ↦
      rw one (All-append P (fill i k xs) (fill i k xs) (All-fill P i k xs h) (All-fill P i k xs h))
  | inr two ↦
      let half = 2 ^ (i + k) in
      rw two (
        All-append P (fill i k (take half xs)) (fill i k (drop half xs))
          (All-fill P i k (take half xs) (All-take P half xs h))
          (All-fill P i k (drop half xs) (All-drop P half xs h)))
]
