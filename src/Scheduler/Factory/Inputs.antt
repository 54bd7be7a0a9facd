-- ===== src/Scheduler/Factory/Inputs.antt =====
-- The inputs that the factories build.
use worldcoin_aggregation.Prelude.{
  ℕ, suc, ◌+◌, ◌-◌, ◌^◌, ◌≤◌, ◌<◌, ◌≡◌, refl, sym, ap, ◌∙◌, List, [], ◌∷◌, Result, ok, panic,
  Reason, arith, or_fault, traverse, index, resize, length, take, length-append, length-replicate,
  replicate, take-append, take_all, ltb, leb, Bool-cases, inl, inr, ◌==◌, >>=-eq-ok, assert-eq-ok,
  or_fault-eq-ok, ok-injective,
}
use worldcoin_aggregation.Prelude.Words.{sub32, shl32, shl64, sub32-eq, shl32-eq, shl64-eq, u32_mod}
use worldcoin_aggregation.Circuits.Utils.{max_groth16_pi}
use worldcoin_aggregation.Circuits.Claims.{ClaimInput, WorldcoinLeafInput}
use worldcoin_aggregation.Circuits.Snarks.{Snark}
use worldcoin_aggregation.Circuits.V1.Intermediate.{WorldcoinIntermediateAggregationInput, new}
use worldcoin_aggregation.Scheduler.Request.{RecursiveRequest}
use worldcoin_aggregation.Scheduler.Request.Splits.{IsValid}
use worldcoin_aggregation.Scheduler.Local.{
  WorldcoinRequestLeaf, WorldcoinRequestNode, node_request, two_snarks,
}
use worldcoin_aggregation.Scheduler.Factory.{
  Parsers, new_leaf_input, build_leaf, build_intermediate,
}

-- A list that is resized to a larger length keeps its elements.
resize-larger :
    (n : ℕ) (a : ClaimInput) (xs : List ClaimInput)
    → length xs ≤ n
    → (length (resize n a xs) ≡ n) × (take (length xs) (resize n a xs) ≡ xs)
resize-larger n a xs h =
    let all : take n xs ≡ xs = take_all n xs h in
    (
      rw all (
          length-append xs (replicate (n - length xs) a)
          ∙ omega (arith, length-replicate (n - length xs) a)),
      rw all (take-append xs (replicate (n - length xs) a)),
    )

length-traverse :
    {A B : Type 0} (f : A → Result B) (xs : List A) {ys : List B}
    → traverse f xs ≡ ok ys
    → length ys ≡ length xs
unfolding traverse
length-traverse f [] h = ap length (sym (ok-injective h))
length-traverse f (x ∷ xs) h =
    let (y, first, rest) = >>=-eq-ok (f x) _ h in
    let (zs, others, last) = >>=-eq-ok (traverse f xs) _ rest in
    ap length (sym (ok-injective last)) ∙ ap suc (length-traverse f xs others)

-- The input of a leaf circuit for the claims [start, end).
pub record IsLeafInput {Vk Root Claim : Type 0} (parsers : Parsers Vk Root Claim)
    (request : WorldcoinRequestLeaf Root Claim) (input : WorldcoinLeafInput) : Type 0 where
  pub parsed : List ClaimInput
  pub same_start : input.start ≡ request.start
  pub same_end : input.end ≡ request.end
  pub same_depth : input.max_depth ≡ request.depth
  pub read :
      traverse
        (λ claim. or_fault (parsers.parse_claim claim) (panic Reason.unwrap_none))
        request.claims
      ≡ ok parsed
  pub filled : length input.claims ≡ 2 ^ request.depth
  pub range : take (request.end - request.start) input.claims ≡ parsed

module _ {Vk Root Claim : Type 0} (parsers : Parsers Vk Root Claim) where
  new_leaf_input-IsLeafInput :
      (vk : Vk) (request : WorldcoinRequestLeaf Root Claim) {input : WorldcoinLeafInput}
      → request.depth < 32
      → request.start < request.end
      → request.end < u32_mod
      → request.end - request.start ≤ 2 ^ request.depth
      → new_leaf_input parsers vk request.root request.start request.end request.depth
          request.claims
        ≡ ok input
      → IsLeafInput parsers request input
  unfolding new_leaf_input
  new_leaf_input-IsLeafInput vk request {input} small nonempty word fits h =
      let n : sub32 request.end request.start ≡ request.end - request.start =
        sub32-eq request.end request.start (omega arith) word in
      let (same, h1) =
        assert-eq-ok (length request.claims == sub32 request.end request.start) _ h in
      let (some_proof, h2) = assert-eq-ok (ltb 0 (sub32 request.end request.start)) _ h1 in
      let (vk_bytes, key, h3) =
        or_fault-eq-ok (parsers.parse_vk vk max_groth16_pi) (panic Reason.unwrap_none) _ h2 in
      let (parsed, read, h4) =
        >>=-eq-ok
          (traverse (λ claim. or_fault (parsers.parse_claim claim) (panic Reason.unwrap_none))
            request.claims)
          _ h3 in
      let (first, at, h5) = >>=-eq-ok (index parsed 0) _ h4 in
      let (root, known, last) =
        or_fault-eq-ok (parsers.parse_root request.root) (panic Reason.unwrap_none) _ h5 in
      let counted : length parsed ≡ request.end - request.start =
        length-traverse _ request.claims read ∙ ground (arith, n) in
      let shift : shl64 request.depth ≡ 2 ^ request.depth = shl64-eq request.depth (omega arith) in
      let (filled, kept) = resize-larger (shl64 request.depth) first parsed (omega arith) in
      let shown = sym (ok-injective last) in
      record {
        parsed = parsed;
        same_start = ap (λ (i : WorldcoinLeafInput). i.start) shown;
        same_end = ap (λ (i : WorldcoinLeafInput). i.end) shown;
        same_depth = ap (λ (i : WorldcoinLeafInput). i.max_depth) shown;
        read = read;
        filled = ap (λ (i : WorldcoinLeafInput). length i.claims) shown ∙ (filled ∙ shift);
        range =
            ap (λ (i : WorldcoinLeafInput). take (request.end - request.start) i.claims) shown
            ∙ (ap (λ k. take k (resize (shl64 request.depth) first parsed)) (sym counted) ∙ kept);
      }

  -- If the build of a leaf request ends with an input, for a depth below 32 and an end below
  -- 2^32, the range is not empty and has at most 2^depth claims, and the input has the request's
  -- start, end and depth, exactly 2^depth claims, and as its first ones the claims of the
  -- request, parsed.
  pub build_leaf-IsLeafInput :
      (vk : Vk) (request : WorldcoinRequestLeaf Root Claim) {input : WorldcoinLeafInput}
      → request.depth < 32
      → request.end < u32_mod
      → build_leaf parsers vk request ≡ ok input
      → (request.start < request.end)
        × (request.end ≤ request.start + 2 ^ request.depth)
        × IsLeafInput parsers request input
  unfolding build_leaf
  build_leaf-IsLeafInput vk request {input} small word h =
      elim (Bool-cases (leb request.end request.start)) [
        | inl empty ↦ absurd (ground arith)
        | inr nonempty ↦
            let n : sub32 request.end request.start ≡ request.end - request.start =
              sub32-eq request.end request.start (ground arith) word in
            elim (Bool-cases (ltb (shl32 request.depth) (sub32 request.end request.start))) [
              | inl many ↦ absurd (ground arith)
              | inr fits ↦
                  let room : request.end - request.start ≤ 2 ^ request.depth =
                    ground (arith, shl32-eq request.depth small, n) in
                  (
                    ground arith,
                    omega (arith, room),
                    new_leaf_input-IsLeafInput vk request {input = input} small (ground arith) word
                        room (rw (nonempty, fits) at h),
                  )
            ]
      ]

module _ {Root Claim : Type 0} where
  node_of : RecursiveRequest Root Claim → Snark → Snark → WorldcoinRequestNode
  node_of req x y = record {
    start = req.start;
    end = req.end;
    depth = req.params.depth;
    initial_depth = req.params.initial_depth;
    snarks = x ∷ y ∷ [];
  }

  build-node_of :
      (req : RecursiveRequest Root Claim) (x y : Snark)
      → IsValid req
      → req.params.initial_depth < req.params.depth
      → (input : WorldcoinIntermediateAggregationInput) × (build_intermediate (node_of req x y)
          ≡ ok input)
        × (input.num_proofs ≡ length req.claims)
        × (length input.snarks ≡ 2)
  unfolding build_intermediate new node_of
  build-node_of req x y v above =
      let n : sub32 req.end req.start ≡ req.end - req.start =
        sub32-eq req.end req.start (omega (arith, v.nonempty)) (omega (arith, v.fits, v.word)) in
      (
        record {
          num_proofs = req.end - req.start;
          snarks = x ∷ y ∷ [];
          max_depth = req.params.depth;
          initial_depth = req.params.initial_depth;
        },
        ground (arith, n, v.nonempty, v.fits, v.small, shl32-eq req.params.depth),
        sym v.counted,
        refl,
      )

  -- For a valid request above the leaves and one or two snarks of its dependencies, the scheduler
  -- makes a request that the V1 intermediate factory accepts: no assertion fails, the input has
  -- two snarks, and its number of proofs is the number of claims.
  pub node_request-build :
      (req : RecursiveRequest Root Claim) (snarks : List Snark)
      → IsValid req
      → req.params.initial_depth < req.params.depth
      → 0 < length snarks
      → length snarks ≤ 2
      → (node : WorldcoinRequestNode) × (input : WorldcoinIntermediateAggregationInput)
        × (node_request req snarks ≡ ok node)
        × (build_intermediate node ≡ ok input)
        × (input.num_proofs ≡ length req.claims)
        × (length input.snarks ≡ 2)
  unfolding node_request two_snarks node_of
  node_request-build req [] v above pos le = elim pos [ ]
  node_request-build req (x ∷ []) v above pos le =
      let (input, built, n, two) = build-node_of req x x v above in
      (node_of req x x, input, refl, built, n, two)
  node_request-build req (x ∷ y ∷ []) v above pos le =
      let (input, built, n, two) = build-node_of req x y v above in
      (node_of req x y, input, refl, built, n, two)
  node_request-build req (x ∷ y ∷ z ∷ rest) v above pos le = absurd (omega arith)
