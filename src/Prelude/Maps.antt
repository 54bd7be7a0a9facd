-- ===== src/Prelude/Maps.antt =====
-- `HashMap`: a list of entries, the newest first, for keys with a Boolean test of equality.
use mathlib.Core.Path.{◌≡◌}
use mathlib.Core.Logic.{◌⊎◌, inl, inr}
use mathlib.Core.Bool.{Bool, true}
use mathlib.Core.Option.{Option, none, some}
use mathlib.Core.List.{List, [], ◌∷◌}
use worldcoin_aggregation.Prelude.Tests.{if◌then◌else◌, Bool-cases, ◌==◌, ==_refl, ==_iff}

abbrev pub HashMap : Type 0 → Type 0 → Type 0
HashMap K V = List (K × V)

-- `==` of a key type.
pub record IsTest {K : Type 0} (test : K → K → Bool) : Type 0 where
  pub refl_test : (k : K) → test k k ≡ true
  pub test→≡ : (k l : K) → test k l ≡ true → k ≡ l

pub ℕ-IsTest : IsTest ◌==◌
ℕ-IsTest = record { refl_test = ==_refl; test→≡ = λ k l. (==_iff k l).0 }

module _ {K V : Type 0} (test : K → K → Bool) where
  unfoldable pub get : K → HashMap K V → Option V
  get k [] = none
  get k ((l, v) ∷ m) = if test k l then some v else get k m

module _ {K V : Type 0} where
  unfoldable pub put : K → V → HashMap K V → HashMap K V
  put k v m = (k, v) ∷ m

  pub get-put :
      (test : K → K → Bool) (k : K) (v : V) (m : HashMap K V)
      → IsTest test
      → get test k (put k v m) ≡ some v
  unfolding get put
  get-put test k v m is = rw (is.refl_test k)

  -- What a key finds after an insertion.
  pub get-put-some :
      (test : K → K → Bool) (k l : K) (v w : V) (m : HashMap K V)
      → IsTest test
      → get test l (put k v m) ≡ some w
      → ((l ≡ k) × (v ≡ w)) ⊎ (get test l m ≡ some w)
  unfolding get put
  get-put-some test k l v w m is e = elim (Bool-cases (test l k)) [
    | inl same ↦ let first : some v ≡ some w = rw same at e in inl (is.test→≡ l k same, cc)
    | inr other ↦ inr (rw other at e)
  ]

  -- A key that finds a value finds one after an insertion.
  pub get-put-total :
      (test : K → K → Bool) (k l : K) (v w : V) (m : HashMap K V)
      → get test l m ≡ some w
      → (u : V) × (get test l (put k v m) ≡ some u)
  unfolding get put
  get-put-total test k l v w m e = elim (Bool-cases (test l k)) [
    | inl same ↦ (v, rw same)
    | inr other ↦ (w, rw other e)
  ]

-- An entry that is stored after it is read.
pub put-holds :
    {K V : Type 0} (test : K → K → Bool) (k l : K) (v w : V) (m : HashMap K V)
    (holds : K → V → Type 0)
    → IsTest test
    → holds k v
    → ((j : K) (u : V) → get test j m ≡ some u → holds j u)
    → get test l (put k v m) ≡ some w
    → holds l w
put-holds test k l v w m holds is first before e = elim (get-put-some test k l v w m is e) [
  | inl (at_k, value) ↦ rw (at_k, ← value) first
  | inr old ↦ before l w old
]
