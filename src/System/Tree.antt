-- ===== src/System/Tree.antt =====
-- What the scheduler needs of the circuits of a tree: that a leaf, an inner node and the root can be
-- proved, and what their proofs then show. The circuits of V1 and of V2 fill this interface.
use worldcoin_aggregation.Prelude.{
  ℕ, suc, ◌+◌, ◌-◌, ◌^◌, ◌≤◌, ◌<◌, ◌≡◌, ◌⊎◌, List, ◌++◌, Result, ok, All, length,
}
use worldcoin_aggregation.Prelude.Words.{u32_mod}
use worldcoin_aggregation.Circuits.Snarks.{Snark}
use worldcoin_aggregation.Scheduler.Local.{RequestRouter}
use worldcoin_aggregation.System.Snarks.{node_of}

-- What a proof shows of the claims [start, end).
abbrev pub Showing : Type 0 → Type 1
Showing Claim = ℕ → ℕ → List Claim → Snark → Type 0

-- One proof has all the claims and is joined with itself.
pub record One {Claim : Type 0} (Shows : Showing Claim) (width start end : ℕ) (claims : List Claim)
    (x y : Snark) : Type 0 where
  pub fits : end ≤ start + width
  pub count : length claims ≡ end - start
  pub shows : Shows start end claims x
  pub same : y ≡ x

-- The first proof is full and the second has the other claims.
pub record Two {Claim : Type 0} (Shows : Showing Claim) (width start end : ℕ) (claims : List Claim)
    (x y : Snark) : Type 0 where
  pub mid : ℕ
  pub xs : List Claim
  pub ys : List Claim
  pub full : mid ≡ start + width
  pub more : mid < end
  pub fits : end ≤ mid + width
  pub count_xs : length xs ≡ mid - start
  pub count_ys : length ys ≡ end - mid
  pub first : Shows start mid xs x
  pub second : Shows mid end ys y
  pub whole : xs ++ ys ≡ claims

abbrev pub Halves :
    {Claim : Type 0} → Showing Claim → ℕ → ℕ → ℕ → List Claim → Snark → Snark → Type 0
Halves Shows width start end claims x y =
    One Shows width start end claims x y ⊎ Two Shows width start end claims x y

pub record TreeProver (Root Claim : Type 0) : Type 1 where
  pub root_text : Root
  pub max_depth : ℕ
  pub prove : RequestRouter Root Claim → Result Snark
  pub IsGood : Claim → Type 0
  -- By the depth of the leaves and the number of levels above them.
  pub Shows : ℕ → ℕ → Showing Claim
  pub RootShows : ℕ → ℕ → Showing Claim
  pub leaf_shows :
      (i start end : ℕ) (claims : List Claim)
      → start < end
      → end < u32_mod
      → end ≤ start + 2 ^ i
      → i ≤ max_depth
      → length claims ≡ end - start
      → All IsGood claims
      → (sn : Snark) × (prove (
            RequestRouter.leaf
              (record { start = start; end = end; depth = i; root = root_text; claims = claims }))
          ≡ ok sn)
        × Shows i 0 start end claims sn
  pub node_shows :
      (i k start end : ℕ) (claims : List Claim) (x y : Snark)
      → start < end
      → end < u32_mod
      → suc (i + k) ≤ max_depth
      → All IsGood claims
      → Halves (Shows i k) (2 ^ (i + k)) start end claims x y
      → (sn : Snark) × (prove (RequestRouter.intermediate (node_of start end (suc (i + k)) i x y))
          ≡ ok sn)
        × Shows i (suc k) start end claims sn
  pub root_shows :
      (i k start end : ℕ) (claims : List Claim) (x y : Snark)
      → start < end
      → end < u32_mod
      → suc (i + k) ≤ max_depth
      → All IsGood claims
      → Halves (Shows i k) (2 ^ (i + k)) start end claims x y
      → (sn : Snark) × (prove (RequestRouter.root (node_of start end (suc (i + k)) i x y)) ≡ ok sn)
        × RootShows i (suc k) start end claims sn
