-- ===== src/Scheduler/Factory/Native.antt =====
-- A claim as it is sent: `get_pf_string` and `parse_proof` of circuit/src/types.rs, and the loop over
-- the claims in `WorldcoinLeafInput::new` of circuit/src/circuits/v1/leaf.rs. JSON, the decimal
-- numbers and the points of the curve are read by libraries, which are a parameter.
use worldcoin_aggregation.Prelude.{
  ℕ, ◌≡◌, Option, none, some, List, [], ◌∷◌, ◌++◌, Result, ok, err, panic, Reason, or_fault,
  traverse, index, length, ◌==◌, ◌>>=◌, if◌then◌else◌,
}
use worldcoin_aggregation.Circuits.Claims.{ClaimInput}
use worldcoin_aggregation.Scheduler.Contract.{ClaimNative}
use worldcoin_aggregation.Scheduler.Factory.{Parsers}

-- The texts that stand in the source.
pub data Literal : Type 0 where
  literal_0 literal_1 groth16 bn128 : Literal

-- The JSON object of a proof.
pub record PfFile (Text : Type 0) : Type 0 where
  pub pi_a : List Text
  pub pi_b : List (List Text)
  pub pi_c : List Text
  pub protocol : Text
  pub curve : Text

-- The libraries: serde_json, BigUint, and the points of axiom-components. A function that panics on
-- a text that it cannot read returns an Option.
pub record Codec (Text Address Point Pair : Type 0) : Type 0 where
  pub literal : Literal → Text
  pub print_json : PfFile Text → Text
  pub read_json : Text → Option (PfFile Text)
  pub vec_to_hilo_point : List Text → Option Point
  pub vec_to_hilo_pair : List (List Text) → Option Pair
  pub flatten_vec : Point → Pair → Point → List ℕ
  pub read_decimal : Text → Option ℕ
  pub fe_from_big : ℕ → Option ℕ
  pub biguint_to_fe : ℕ → Option ℕ
  pub encode_addr_to_field : Address → ℕ

-- The list as an array of a fixed length, `deserialize_key!`.
abbrev pub array : {A : Type 0} → ℕ → List A → Result (List A)
array n xs = if length xs == n then ok xs else err (panic Reason.unwrap_none)

abbrev pub to_option : {A : Type 0} → Result A → Option A
to_option (ok a) = some a
to_option (err fault) = none

module _ {Text Address Point Pair : Type 0} (codec : Codec Text Address Point Pair) where
  unfoldable pub get_pf_string : List Text → Result Text
  get_pf_string proof = do
    p0 ← index proof 0
    p1 ← index proof 1
    p3 ← index proof 3
    p2 ← index proof 2
    p5 ← index proof 5
    p4 ← index proof 4
    p6 ← index proof 6
    p7 ← index proof 7
    let l0 = codec.literal Literal.literal_0
    let l1 = codec.literal Literal.literal_1
    ok (
        codec.print_json (record {
          pi_a = p0 ∷ p1 ∷ l1 ∷ [];
          pi_b = (p3 ∷ p2 ∷ []) ∷ (p5 ∷ p4 ∷ []) ∷ (l1 ∷ l0 ∷ []) ∷ [];
          pi_c = p6 ∷ p7 ∷ l1 ∷ [];
          protocol = codec.literal Literal.groth16;
          curve = codec.literal Literal.bn128;
        }))

  unfoldable pub parse_proof : Text → Result (List ℕ)
  parse_proof pf_string = do
    proof_file ← or_fault (codec.read_json pf_string) (panic Reason.unwrap_none)
    a_texts ← array 3 proof_file.pi_a
    b_rows ← array 3 proof_file.pi_b
    b_texts ← traverse (array 2) b_rows
    c_texts ← array 3 proof_file.pi_c
    a ← or_fault (codec.vec_to_hilo_point a_texts) (panic Reason.unwrap_none)
    b ← or_fault (codec.vec_to_hilo_pair b_texts) (panic Reason.unwrap_none)
    c ← or_fault (codec.vec_to_hilo_point c_texts) (panic Reason.unwrap_none)
    ok (codec.flatten_vec a b c)

  -- `fe_from_big(BigUint::from_str(text).unwrap())`
  abbrev pub read_field : (ℕ → Option ℕ) → Text → Result ℕ
  read_field to_field text = do
    number ← or_fault (codec.read_decimal text) (panic Reason.unwrap_none)
    or_fault (to_field number) (panic Reason.unwrap_none)

  -- One round of the loop over the claims.
  unfoldable pub claim_input : ClaimNative Text Address → Result ClaimInput
  claim_input claim = do
    pf_string ← get_pf_string claim.proof
    proof_bytes ← parse_proof pf_string
    nullifier_hash ← read_field codec.fe_from_big claim.nullifier_hash
    grant_id ← read_field codec.fe_from_big claim.grant_id
    ok (record {
      receiver = codec.encode_addr_to_field claim.receiver;
      nullifier_hash = nullifier_hash;
      grant_id = grant_id;
      proof_bytes = proof_bytes;
    })

  -- The parsers of a leaf request, with this one of its claims.
  abbrev pub native_parsers :
      {Vk : Type 0} → (Vk → ℕ → Option (List ℕ)) → Parsers Vk Text (ClaimNative Text Address)
  native_parsers parse_vk = record {
    parse_vk = parse_vk;
    parse_root = λ text. to_option (read_field codec.biguint_to_fe text);
    parse_claim = λ claim. to_option (claim_input claim);
  }

-- A Groth16 proof, and its words as the contract takes them: of a coordinate of the point of G2 the
-- imaginary part stands first.
pub record Groth16Proof (Text : Type 0) : Type 0 where
  pub a_x : Text
  pub a_y : Text
  pub b_x_im : Text
  pub b_x_re : Text
  pub b_y_im : Text
  pub b_y_re : Text
  pub c_x : Text
  pub c_y : Text

abbrev pub words : {Text : Type 0} → Groth16Proof Text → List Text
words g = g.a_x ∷ g.a_y ∷ g.b_x_im ∷ g.b_x_re ∷ g.b_y_im ∷ g.b_y_re ∷ g.c_x ∷ g.c_y ∷ []

module _ {Text Address Point Pair : Type 0} (codec : Codec Text Address Point Pair) where
  -- The points of a proof, as the circuit takes them, with the real parts first and z = 1.
  pub record Reads (g : Groth16Proof Text) (a : Point) (b : Pair) (c : Point) : Type 0 where
    pub point_a :
        codec.vec_to_hilo_point (g.a_x ∷ g.a_y ∷ codec.literal Literal.literal_1 ∷ []) ≡ some a
    pub point_b :
        codec.vec_to_hilo_pair (
          (g.b_x_re ∷ g.b_x_im ∷ [])
          ∷ (g.b_y_re ∷ g.b_y_im ∷ [])
          ∷ (codec.literal Literal.literal_1 ∷ codec.literal Literal.literal_0 ∷ [])
          ∷ [])
        ≡ some b
    pub point_c :
        codec.vec_to_hilo_point (g.c_x ∷ g.c_y ∷ codec.literal Literal.literal_1 ∷ []) ≡ some c

  -- If the JSON of any proof object is read back as it is, and the texts of the three points of a
  -- Groth16 proof can be read, then the words of the proof, in the order of the contract and with
  -- any texts after them, are printed and parsed to these points, flattened: each coordinate of
  -- the second point has its real part first.
  pub parse_proof-get_pf_string :
      (g : Groth16Proof Text) (more : List Text) (a : Point) (b : Pair) (c : Point)
      → ((file : PfFile Text) → codec.read_json (codec.print_json file) ≡ some file)
      → Reads g a b c
      → (get_pf_string codec (words g ++ more) >>= parse_proof codec) ≡ ok (codec.flatten_vec a b c)
  unfolding get_pf_string parse_proof traverse
  parse_proof-get_pf_string g more a b c json reads =
      rw (json _, Reads.point_a reads, Reads.point_b reads, Reads.point_c reads)
