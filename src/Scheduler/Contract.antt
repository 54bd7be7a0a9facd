-- ===== src/Scheduler/Contract.antt =====
-- circuit/src/scheduler/contract_client.rs: what the scheduler sends to the V1 contract. The readers of
-- decimal and hexadecimal texts are parameters; the sending of a transaction is left out.
use worldcoin_aggregation.Prelude.{
  ℕ, zero, suc, ◌≡◌, refl, sym, ◌∙◌, Option, some, List, [], ◌∷◌, map, Result, ok, panic, Reason,
  or_fault, traverse, traverse-get, length, get_elem?, >>=-eq-ok, or_fault-ok, ok-injective, ◌>>=◌,
}

-- `ClaimNative`
pub record ClaimNative (Text Address : Type 0) : Type 0 where
  pub receiver : Address
  pub nullifier_hash : Text
  pub grant_id : Text
  pub proof : List Text

pub record V1ClaimParams (Address : Type 0) : Type 0 where
  pub vkey_hash : ℕ
  pub num_claims : ℕ
  pub root : ℕ
  pub grant_ids : List ℕ
  pub receivers : List Address
  pub nullifier_hashes : List ℕ
  pub proof : List ℕ

-- `H256::from_str`, `U256::from_str_radix` with radix 10, and `Vec::from_hex`.
pub record Readers (Text : Type 0) : Type 0 where
  pub read_h256 : Text → Option ℕ
  pub read_decimal : Text → Option ℕ
  pub read_hex : Text → Option (List ℕ)

map-get :
    {A B : Type 0} (f : A → B) (xs : List A) (i : ℕ) (x : A)
    → get_elem? xs i ≡ some x
    → get_elem? (map f xs) i ≡ some (f x)
map-get f [] i x at_i = cc
map-get f (a ∷ xs) zero x at_i = cc
map-get f (a ∷ xs) (suc i) x at_i = map-get f xs i x at_i

module _ {Text : Type 0} (readers : Readers Text) where
  -- `expect`
  abbrev pub decimal : Text → Result ℕ
  decimal text = or_fault (readers.read_decimal text) (panic Reason.unwrap_none)

  decimals-get :
      {A : Type 0} (f : A → Text) (xs : List A) {ys : List ℕ} (i : ℕ) {x : A}
      → traverse (λ a. decimal (f a)) xs ≡ ok ys
      → get_elem? xs i ≡ some x
      → get_elem? ys i ≡ readers.read_decimal (f x)
  decimals-get f xs i {x} e at_i =
      let (y, read, at_same) = traverse-get (λ a. decimal (f a)) xs i e at_i in
      at_same ∙ sym (or_fault-ok (readers.read_decimal (f x)) _ read)

module _ {Text Address : Type 0} (readers : Readers Text) where
  -- `V1ClaimParams::new`
  unfoldable pub claim_params :
      Text → Text → List (ClaimNative Text Address) → Text → Result (V1ClaimParams Address)
  claim_params vkey_hash world_root claims proof = do
    hash ← or_fault (readers.read_h256 vkey_hash) (panic Reason.unwrap_none)
    root_number ← decimal readers world_root
    nullifier_hashes ←
        traverse (λ (claim : ClaimNative Text Address). decimal readers claim.nullifier_hash) claims
    grant_ids ←
        traverse (λ (claim : ClaimNative Text Address). decimal readers claim.grant_id) claims
    bytes ← or_fault (readers.read_hex proof) (panic Reason.unwrap_none)
    ok (record {
      vkey_hash = hash;
      num_claims = length claims;
      root = root_number;
      grant_ids = grant_ids;
      receivers = map (λ (claim : ClaimNative Text Address). claim.receiver) claims;
      nullifier_hashes = nullifier_hashes;
      proof = bytes;
    })

  -- What is sent for the claim at a position.
  pub record IsSent (params : V1ClaimParams Address) (i : ℕ) (claim : ClaimNative Text Address)
      : Type 0 where
    pub receiver : get_elem? params.receivers i ≡ some claim.receiver
    pub nullifier_hash :
        get_elem? params.nullifier_hashes i ≡ readers.read_decimal claim.nullifier_hash
    pub grant_id : get_elem? params.grant_ids i ≡ readers.read_decimal claim.grant_id

  -- If the parameters for the V1 contract are made of a root and claims, they give the number of
  -- the claims, the root that is read, and at each position the receiver, and the nullifier hash
  -- and grant id that are read, of the claim at that position.
  pub claim_params-IsSent :
      (vkey_hash world_root proof : Text) (claims : List (ClaimNative Text Address))
      (params : V1ClaimParams Address) (i : ℕ) (claim : ClaimNative Text Address)
      → claim_params vkey_hash world_root claims proof ≡ ok params
      → get_elem? claims i ≡ some claim
      → (params.num_claims ≡ length claims)
        × (some params.root ≡ readers.read_decimal world_root)
        × IsSent params i claim
  unfolding claim_params
  claim_params-IsSent vkey_hash world_root proof claims params i claim e at_i =
      let (hash, e_hash, e1) = >>=-eq-ok (or_fault (readers.read_h256 vkey_hash) _) _ e in
      let (root_number, e_root, e2) = >>=-eq-ok (decimal readers world_root) _ e1 in
      let (hashes, e_hashes, e3) =
        >>=-eq-ok (traverse (λ c. decimal readers (ClaimNative.nullifier_hash c)) claims) _ e2 in
      let (ids, e_ids, e4) =
        >>=-eq-ok (traverse (λ c. decimal readers (ClaimNative.grant_id c)) claims) _ e3 in
      let (bytes, e_bytes, e5) = >>=-eq-ok (or_fault (readers.read_hex proof) _) _ e4 in
      let shape = ok-injective e5 in
      rw (← shape) (
        refl,
        sym (or_fault-ok (readers.read_decimal world_root) _ e_root),
        record {
          receiver = map-get (λ c. ClaimNative.receiver c) claims i claim at_i;
          nullifier_hash =
              decimals-get readers (λ c. ClaimNative.nullifier_hash c) claims i e_hashes at_i;
          grant_id = decimals-get readers (λ c. ClaimNative.grant_id c) claims i e_ids at_i;
        },
      )
