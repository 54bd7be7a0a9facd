-- ===== src/Halo2/Bytes.antt =====
-- Big-endian bytes of a number, and the number of some bytes.
use mathlib.Core.List.{append-nil}
use native.Mathlib.Nat.{pow-suc, mul-le-mul_right}
use worldcoin_aggregation.Prelude.{
  ℕ, zero, suc, ◌+◌, ◌*◌, ◌/◌, ◌%◌, ◌^◌, ◌≤◌, ◌<◌, ◌≡◌, ◌∙◌, List, [], ◌∷◌, ◌++◌, arith, length,
}

be_bytes_onto : ℕ → ℕ → List ℕ → List ℕ
be_bytes_onto zero x acc = acc
be_bytes_onto (suc n) x acc = be_bytes_onto n (x / 256) ((x % 256) ∷ acc)

-- The `n` low bytes of `x`, the highest first.
unfoldable pub be_bytes : ℕ → ℕ → List ℕ
unfolding be_bytes_onto
be_bytes n x = be_bytes_onto n x []

-- `u128::from_be_bytes`, with the bytes read before.
from_be_bytes_onto : ℕ → List ℕ → ℕ
from_be_bytes_onto a [] = a
from_be_bytes_onto a (b ∷ bs) = from_be_bytes_onto (a * 256 + b) bs

unfoldable pub from_be_bytes : List ℕ → ℕ
unfolding from_be_bytes_onto
from_be_bytes bs = from_be_bytes_onto 0 bs

abbrev pub AreBytes : List ℕ → Type 0
AreBytes [] = Unit
AreBytes (b ∷ bs) = (b < 256) × AreBytes bs

be_bytes_onto-from_be_bytes_onto :
    (bs : List ℕ) (k a : ℕ) (acc : List ℕ)
    → AreBytes bs
    → be_bytes_onto (length bs + k) (from_be_bytes_onto a bs) acc ≡ be_bytes_onto k a (bs ++ acc)
unfolding be_bytes_onto from_be_bytes_onto
be_bytes_onto-from_be_bytes_onto [] k a acc h = let e : 0 + k ≡ k = omega arith in rw e
be_bytes_onto-from_be_bytes_onto (b ∷ bs) k a acc h =
    let e : suc (length bs) + k ≡ length bs + suc k = omega arith in
    let q : (a * 256 + b) / 256 ≡ a = omega arith in
    let r : (a * 256 + b) % 256 ≡ b = omega arith in
    rw (e, be_bytes_onto-from_be_bytes_onto bs (suc k) (a * 256 + b) acc h.1, q, r)

-- Bytes are recovered from the number that they spell.
pub be_bytes-from_be_bytes :
    (n : ℕ) (bs : List ℕ) → length bs ≡ n → AreBytes bs → be_bytes n (from_be_bytes bs) ≡ bs
unfolding be_bytes from_be_bytes be_bytes_onto
be_bytes-from_be_bytes n bs e h =
    let e' : n ≡ length bs + 0 = omega arith in
    rw e' (be_bytes_onto-from_be_bytes_onto bs 0 0 [] h ∙ append-nil bs)

from_be_bytes_onto-lt :
    (bs : List ℕ) (a : ℕ) → AreBytes bs → from_be_bytes_onto a bs < (a + 1) * 256 ^ length bs
unfolding from_be_bytes_onto
from_be_bytes_onto-lt [] a h = omega arith
from_be_bytes_onto-lt (b ∷ bs) a h =
    let grows : suc b * 256 ^ length bs ≤ 256 * 256 ^ length bs = mul-le-mul_right _ h.0 in
    rw (pow-suc 256 (length bs)) (omega (arith, grows, from_be_bytes_onto-lt bs (a * 256 + b) h.1))

-- They spell a number of that many bytes.
pub from_be_bytes-lt :
    (n : ℕ) (bs : List ℕ) → length bs ≡ n → AreBytes bs → from_be_bytes bs < 256 ^ n
unfolding from_be_bytes
from_be_bytes-lt n bs e h = rw (← e) (omega (arith, from_be_bytes_onto-lt bs 0 h))

length-be_bytes_onto : (n x : ℕ) (acc : List ℕ) → length (be_bytes_onto n x acc) ≡ n + length acc
unfolding be_bytes_onto
length-be_bytes_onto zero x acc = omega arith
length-be_bytes_onto (suc n) x acc =
    omega (arith, length-be_bytes_onto n (x / 256) ((x % 256) ∷ acc))

pub length-be_bytes : (n x : ℕ) → length (be_bytes n x) ≡ n
unfolding be_bytes
length-be_bytes n x = omega (arith, length-be_bytes_onto n x [])

be_bytes_onto-AreBytes : (n x : ℕ) (acc : List ℕ) → AreBytes acc → AreBytes (be_bytes_onto n x acc)
unfolding be_bytes_onto
be_bytes_onto-AreBytes zero x acc h = h
be_bytes_onto-AreBytes (suc n) x acc h =
    be_bytes_onto-AreBytes n (x / 256) ((x % 256) ∷ acc) (omega arith, h)

pub be_bytes-AreBytes : (n x : ℕ) → AreBytes (be_bytes n x)
unfolding be_bytes
be_bytes-AreBytes n x = be_bytes_onto-AreBytes n x [] tt
