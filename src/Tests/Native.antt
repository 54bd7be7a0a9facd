-- ===== src/Tests/Native.antt =====
-- The theorems on the claims as they are sent, for texts that are trees of numbers.
use worldcoin_aggregation.Prelude.{
  ℕ, ◌≡◌, refl, ap, Option, some, List, [], ◌∷◌, ◌++◌, map, Result, ok, err, traverse, get_elem?,
  arith, ◌>>=◌,
}
use worldcoin_aggregation.Prelude.Words.{sub32, shl32, shl64}
use worldcoin_aggregation.Circuits.Claims.{ClaimInput, WorldcoinLeafInput}
use worldcoin_aggregation.Scheduler.Contract.{ClaimNative}
use worldcoin_aggregation.Scheduler.Local.{WorldcoinRequestLeaf}
use worldcoin_aggregation.Scheduler.Factory.{build_leaf, new_leaf_input}
use worldcoin_aggregation.Scheduler.Factory.Native.{
  Literal, PfFile, Codec, Groth16Proof, Reads, words, get_pf_string, parse_proof, claim_input,
  native_parsers, parse_proof-get_pf_string,
}
use worldcoin_aggregation.Scheduler.Factory.Sent.{IsClaim, build_leaf-IsClaim}

data Tree : Type 0 where
  number : ℕ → Tree
  pair : Tree → Tree → Tree

abbrev print_list : List Tree → Tree
print_list [] = number 0
print_list (x ∷ xs) = pair x (print_list xs)

abbrev read_list : Tree → List Tree
read_list (number n) = []
read_list (pair x rest) = x ∷ read_list rest

abbrev first : Tree → Tree
first (number n) = number n
first (pair x rest) = x

abbrev others : Tree → Tree
others (number n) = number n
others (pair x rest) = rest

read_list-print_list : (xs : List Tree) → read_list (print_list xs) ≡ xs
read_list-print_list [] = refl
read_list-print_list (x ∷ xs) = ap (λ t. x ∷ t) (read_list-print_list xs)

map-read_list : (rows : List (List Tree)) → map read_list (map print_list rows) ≡ rows
map-read_list [] = refl
map-read_list (row ∷ rows) = rw (read_list-print_list row, map-read_list rows)

abbrev number_of : Tree → ℕ
number_of (number n) = n
number_of (pair x rest) = 0

abbrev literal_number : Literal → ℕ
literal_number Literal.literal_0 = 0
literal_number Literal.literal_1 = 1
literal_number Literal.groth16 = 16
literal_number Literal.bn128 = 128

abbrev print_file : PfFile Tree → Tree
print_file file = print_list (
    print_list file.pi_a
    ∷ print_list (map print_list file.pi_b)
    ∷ print_list file.pi_c
    ∷ file.protocol
    ∷ file.curve
    ∷ [])

abbrev read_file : Tree → PfFile Tree
read_file t = record {
  pi_a = read_list (first t);
  pi_b = map read_list (read_list (first (others t)));
  pi_c = read_list (first (others (others t)));
  protocol = first (others (others (others t)));
  curve = first (others (others (others (others t))));
}

abbrev codec : Codec Tree ℕ (List Tree) (List (List Tree))
codec = record {
  literal = λ l. number (literal_number l);
  print_json = print_file;
  read_json = λ t. some (read_file t);
  vec_to_hilo_point = some;
  vec_to_hilo_pair = some;
  flatten_vec =
      λ a b c. map number_of a ++ (map (λ row. number_of (print_list row)) b ++ map number_of c);
  read_decimal = λ t. some (number_of t);
  fe_from_big = some;
  biguint_to_fe = some;
  encode_addr_to_field = λ n. n;
}

read_file-print_file : (file : PfFile Tree) → some (read_file (print_file file)) ≡ some file
read_file-print_file file =
    rw
      (
        read_list-print_list file.pi_a,
        read_list-print_list (map print_list file.pi_b),
        map-read_list file.pi_b,
        read_list-print_list file.pi_c,
      )
      refl

abbrev g : Groth16Proof Tree
g = record {
  a_x = number 11;
  a_y = number 12;
  b_x_im = number 13;
  b_x_re = number 14;
  b_y_im = number 15;
  b_y_re = number 16;
  c_x = number 17;
  c_y = number 18;
}

abbrev point_a : List Tree
point_a = number 11 ∷ number 12 ∷ number 1 ∷ []

abbrev point_b : List (List Tree)
point_b =
    (number 14 ∷ number 13 ∷ []) ∷ (number 16 ∷ number 15 ∷ []) ∷ (number 1 ∷ number 0 ∷ []) ∷ []

abbrev point_c : List Tree
point_c = number 17 ∷ number 18 ∷ number 1 ∷ []

g-Reads : Reads codec g point_a point_b point_c
g-Reads = record { point_a = refl; point_b = refl; point_c = refl }

parse_proof-get_pf_string_example :
    (get_pf_string codec (words g ++ []) >>= parse_proof codec)
    ≡ ok (codec.flatten_vec point_a point_b point_c)
parse_proof-get_pf_string_example =
    parse_proof-get_pf_string codec g [] point_a point_b point_c read_file-print_file g-Reads

abbrev claim_of : ℕ → ClaimNative Tree ℕ
claim_of n = record {
  receiver = n;
  nullifier_hash = number n;
  grant_id = number 30;
  proof = words g ++ [];
}

abbrev leaf_request : WorldcoinRequestLeaf Tree (ClaimNative Tree ℕ)
leaf_request = record {
  start = 10;
  end = 12;
  depth = 2;
  root = number 99;
  claims = claim_of 1 ∷ claim_of 2 ∷ [];
}

abbrev parse_vk : ℕ → ℕ → Option (List ℕ)
parse_vk vk max_pi = some (vk ∷ max_pi ∷ [])

abbrev value : Result WorldcoinLeafInput → WorldcoinLeafInput
value (ok input) = input
value (err e) = record {
  start = 0;
  end = 0;
  vk_bytes = [];
  root = 0;
  claims = [];
  num_public_inputs = 0;
  max_depth = 0;
}

abbrev input : WorldcoinLeafInput
input = value (build_leaf (native_parsers codec parse_vk) 7 leaf_request)

is_built : build_leaf (native_parsers codec parse_vk) 7 leaf_request ≡ ok input
unfolding build_leaf new_leaf_input sub32 shl32 shl64 traverse claim_input get_pf_string parse_proof
is_built = refl

build_leaf-IsClaim_example :
    (shown : ClaimInput) × (get_elem? input.claims 1 ≡ some shown)
    × IsClaim codec (claim_of 2) (codec.flatten_vec point_a point_b point_c) shown
build_leaf-IsClaim_example =
    build_leaf-IsClaim codec parse_vk 7 leaf_request 1 (claim_of 2) g [] point_a point_b point_c
      (omega arith) (omega arith) is_built refl refl read_file-print_file g-Reads
