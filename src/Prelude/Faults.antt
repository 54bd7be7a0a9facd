-- ===== src/Prelude/Faults.antt =====
-- How a call of the program ends. `bail` is an `Err`, `panic` a failed assertion, `unwrap` or
-- `unreachable!`, and `unsat` a circuit whose constraints its inputs do not satisfy.
use mathlib.Core.Path.{◌≡◌, refl}
use mathlib.Core.Logic.{◌⊎◌, inl, inr}
use mathlib.Core.Bool.{Bool, true, false}
use mathlib.Core.Option.{Option, none, some}
use mathlib.Core.List.{List, [], ◌∷◌, ◌++◌}

-- The messages and the assertions of the source.
pub data Reason : Type 0 where
  assertion index_out_of_bounds unwrap_none unreachable out_of_fuel : Reason
  empty_range too_many_proofs depth_below_initial : Reason
  has_accumulator not_an_aggregation instance_columns : Reason
  zero_claims too_many_claims evm_not_final circuit_id_not_found : Reason
  no_kzg_params invalid_range request_failed parse_failed task_failed : Reason
  file_not_found prover_failed cid_conflict invalid_url no_permit invalid_input : Reason

pub data Fault : Type 0 where
  bail panic : Reason → Fault
  unsat : Fault

pub data Result {ℓ} (A : Type ℓ) : Type ℓ where
  ok : A → Result A
  err : Fault → Result A

infixl 5 ◌>>=◌ ◌>>◌
abbrev pub ◌>>=◌ {μ ν} : {X : Type μ} {Y : Type ν} → Result X → (X → Result Y) → Result Y
err fault >>= next = err fault
ok x >>= next = next x

abbrev pub ◌>>◌ {μ ν} : {X : Type μ} {Y : Type ν} → Result X → Result Y → Result Y
first >> then' = first >>= λ _. then'

-- `assert!`, `assert_eq!` and `assert_ne!`
abbrev pub assert : Bool → Result (Unit {0})
assert true = ok tt
assert false = err (panic Reason.assertion)

-- A constraint of a circuit.
abbrev pub constrain : Bool → Result (Unit {0})
constrain true = ok tt
constrain false = err unsat

abbrev pub bail_if : Bool → Reason → Result (Unit {0})
bail_if true r = err (bail r)
bail_if false r = ok tt

abbrev pub or_fault {ℓ} : {A : Type ℓ} → Option A → Fault → Result A
or_fault none e = err e
or_fault (some a) e = ok a

-- A loop that stops at the first fault.
unfoldable pub traverse {ℓ κ} :
    {A : Type ℓ} {B : Type κ} → (A → Result B) → List A → Result (List B)
traverse f [] = ok []
traverse f (x ∷ xs) = do y ← f x; ys ← traverse f xs; ok (y ∷ ys)

-- Inversion of a chain of steps.
pub >>=-eq-ok {μ ν} :
    {X : Type μ} {Y : Type ν} (r : Result X) (next : X → Result Y) {y : Y}
    → (r >>= next) ≡ ok y
    → (x : X) × (r ≡ ok x) × (next x ≡ ok y)
>>=-eq-ok (err fault) next ends = cc
>>=-eq-ok (ok x) next ends = (x, refl, ends)

pub assert-eq-ok {κ} :
    {B : Type κ} (t : Bool) (k : Result B) {b : B}
    → (assert t >> k) ≡ ok b
    → (t ≡ true) × (k ≡ ok b)
assert-eq-ok true k h = (refl, h)
assert-eq-ok false k h = cc

pub constrain-eq-ok {κ} :
    {B : Type κ} (t : Bool) (k : Result B) {b : B}
    → (constrain t >> k) ≡ ok b
    → (t ≡ true) × (k ≡ ok b)
constrain-eq-ok true k h = (refl, h)
constrain-eq-ok false k h = cc

pub bail_if-eq-ok {κ} :
    {B : Type κ} (t : Bool) (r : Reason) (k : Result B) {b : B}
    → (bail_if t r >> k) ≡ ok b
    → (t ≡ false) × (k ≡ ok b)
bail_if-eq-ok true r k h = cc
bail_if-eq-ok false r k h = (refl, h)

pub or_fault-eq-ok {ℓ κ} :
    {A : Type ℓ} {B : Type κ} (o : Option A) (e : Fault) (f : A → Result B) {b : B}
    → (or_fault o e >>= f) ≡ ok b
    → (a : A) × (o ≡ some a) × (f a ≡ ok b)
or_fault-eq-ok none e f h = cc
or_fault-eq-ok (some a) e f h = (a, refl, h)

pub or_fault-ok {ℓ} :
    {A : Type ℓ} (o : Option A) (e : Fault) {a : A} → or_fault o e ≡ ok a → o ≡ some a
or_fault-ok none e h = cc
or_fault-ok (some a) e h = cc

pub Result-cases {ℓ} :
    {A : Type ℓ} (r : Result A) → ((a : A) × (r ≡ ok a)) ⊎ ((e : Fault) × (r ≡ err e))
Result-cases (ok a) = inl (a, refl)
Result-cases (err e) = inr (e, refl)

pub ok-injective {ℓ} : {A : Type ℓ} {a b : A} → ok a ≡ ok b → a ≡ b
ok-injective h = cc

abbrev pub All {ℓ κ} : {A : Type ℓ} → (A → Type κ) → List A → Type κ
All P [] = Unit
All P (x ∷ xs) = P x × All P xs

-- If a loop ends, each of its rounds did.
pub traverse-All {ℓ κ μ} :
    {A : Type ℓ} {B : Type κ} (f : A → Result B) (P : A → Type μ)
    → ((x : A) (y : B) → f x ≡ ok y → P x)
    → (xs : List A) {ys : List B} → traverse f xs ≡ ok ys
    → All P xs
unfolding traverse
traverse-All f P sound [] h = tt
traverse-All f P sound (x ∷ xs) h =
    let (y, first, rest) = >>=-eq-ok (f x) _ h in
    let (zs, others, last) = >>=-eq-ok (traverse f xs) _ rest in
    (sound x y first, traverse-All f P sound xs others)

pub All-append {ℓ κ} :
    {A : Type ℓ} (P : A → Type κ) (xs ys : List A) → All P xs → All P ys → All P (xs ++ ys)
All-append P [] ys h k = k
All-append P (x ∷ xs) ys h k = (h.0, All-append P xs ys h.1 k)
