-- ===== src/Prelude/States.antt =====
-- Calls that change a state: the state is kept when a call ends in a fault.
use mathlib.Core.Path.{◌≡◌, refl}
use worldcoin_aggregation.Prelude.Faults.{Result, ok, err}

abbrev pub Action : Type 0 → Type 0 → Type 0
Action S A = S → S × Result A

abbrev run_next : {S A B : Type 0} → (A → Action S B) → S × Result A → S × Result B
run_next next (s, ok a) = next a s
run_next next (s, err e) = (s, err e)

infixl 5 ◌>>=◌
abbrev pub ◌>>=◌ : {S A B : Type 0} → Action S A → (A → Action S B) → Action S B
(first >>= next) s = run_next next (first s)

abbrev pub lift : {S A : Type 0} → Result A → Action S A
lift r s = (s, r)

abbrev pub return : {S A : Type 0} → A → Action S A
return a s = (s, ok a)

-- On the states that satisfy `Inv`, a call keeps `Inv` and ends as `spec` says, whatever the state.
pub record Implements {S A : Type 0} (Inv : S → Type 0) (call : Action S A) (spec : Result A)
    : Type 0 where
  pub keeps : (s : S) → Inv s → Inv (call s).0
  pub ends : (s : S) → Inv s → (call s).1 ≡ spec

abbrev pub then_spec : {A B : Type 0} → Result A → (A → Result B) → Result B
then_spec (ok a) next = next a
then_spec (err e) next = err e

-- Sequential calls implement sequential specifications.
pub bind-Implements :
    {S A B : Type 0} {Inv : S → Type 0} (call : Action S A) (next : A → Action S B)
    (spec : Result A) (rest : A → Result B)
    → Implements Inv call spec
    → ((a : A) → spec ≡ ok a → Implements Inv (next a) (rest a))
    → Implements Inv (call >>= next) (then_spec spec rest)
bind-Implements call next (ok a) rest is after =
    let then_a = after a refl in
    record {
      keeps = λ s inv. rw (is.ends s inv) (then_a.keeps (call s).0 (is.keeps s inv));
      ends = λ s inv. rw (is.ends s inv) (then_a.ends (call s).0 (is.keeps s inv));
    }
bind-Implements call next (err e) rest is after = record {
  keeps = λ s inv. rw (is.ends s inv) (is.keeps s inv);
  ends = λ s inv. rw (is.ends s inv);
}

pub lift-Implements : {S A : Type 0} {Inv : S → Type 0} (r : Result A) → Implements Inv (lift r) r
lift-Implements r = record { keeps = λ s inv. inv; ends = λ s inv. refl }
