-- ===== src/Prover/Coherent.antt =====
-- The caches of a prover hold what its files hold.
use worldcoin_aggregation.Prelude.{
  ℕ, ◌≡◌, refl, sym, ap, ◌∙◌, inl, inr, Option, some, Result, ok, err, Option-cases, ok-injective,
  ◌==◌,
}
use worldcoin_aggregation.Prelude.Maps.{IsTest, ℕ-IsTest, get, put, put-holds}
use worldcoin_aggregation.Prelude.States.{Implements}
use worldcoin_aggregation.Prover.{
  ProverLib, ProvingServerState, Disk, cached, new, reset, get_srs, get_pinning, get_pk,
}

-- A cache whose entries are what is read.
pub cached-Implements :
    {S V : Type 0} {Inv : S → Type 0} (found : S → Option V) (read : Result V) (store : V → S → S)
    → ((s : S) (v : V) → Inv s → found s ≡ some v → read ≡ ok v)
    → ((s : S) (v : V) → Inv s → read ≡ ok v → Inv (store v s))
    → Implements Inv (λ s. cached (found s) read store s) read
unfolding cached
cached-Implements found (ok v) store hit stores = record {
  keeps = λ s inv. elim (Option-cases (found s)) [
    | inl missing ↦ rw missing (stores s v inv refl)
    | inr (w, there) ↦ rw there inv
  ];
  ends = λ s inv. elim (Option-cases (found s)) [
    | inl missing ↦ rw missing refl
    | inr (w, there) ↦ rw there (sym (hit s w inv there))
  ];
}
cached-Implements found (err e) store hit stores = record {
  keeps = λ s inv. elim (Option-cases (found s)) [
    | inl missing ↦ rw missing inv
    | inr (w, there) ↦ rw there inv
  ];
  ends = λ s inv. elim (Option-cases (found s)) [
    | inl missing ↦ rw missing refl
    | inr (w, there) ↦ rw there (sym (hit s w inv there))
  ];
}

module _ {CircuitId Request Srs Json Pinning Pk Params Circuit Snark FilePath World : Type 0}
    (lib : ProverLib CircuitId Request Srs Json Pinning Pk Params Circuit Snark FilePath
      World) where
  abbrev pub State : Type 0
  State = ProvingServerState CircuitId Srs Json Pk FilePath World

  -- The circuit ids are compared by equality, and the parameters of a circuit are those of the
  -- pinning that it is built from.
  pub record IsProverLib : Type 0 where
    pub is_id : IsTest lib.same_id
    pub params_of : Pinning → Params
    pub pinned :
        (req : Request) (pinning : Pinning) (srs : Srs) (circuit : Circuit)
        → lib.prover_circuit req pinning srs ≡ ok circuit
        → lib.params circuit ≡ params_of pinning

  -- The parameters with which the key of a circuit is read.
  pub record IsPinned (is : IsProverLib) (id : CircuitId) (params : Params) : Type 0 where
    pub json : Json
    pub pinning : Pinning
    pub read : lib.read_pinning id ≡ ok json
    pub parsed : lib.parse_pinning json ≡ ok pinning
    pub shape : params ≡ is.params_of pinning

  pub record IsCoherent (is : IsProverLib) (s : State) : Type 0 where
    pub srs_file : (k : ℕ) (v : Srs) → get ◌==◌ k s.srs ≡ some v → lib.read_srs k ≡ ok v
    pub pinning_file :
        (id : CircuitId) (v : Json)
        → get lib.same_id id s.pinning ≡ some v
        → lib.read_pinning id ≡ ok v
    pub pk_file :
        (id : CircuitId) (v : Pk) (params : Params)
        → get lib.same_id id s.pk ≡ some v
        → IsPinned is id params
        → lib.read_pk id params ≡ ok v

  module _ (is : IsProverLib) where
    -- A prover starts with empty caches.
    pub new-IsCoherent : (disk : Disk FilePath World) → IsCoherent is (new disk)
    unfolding new get
    new-IsCoherent disk = record {
      srs_file = λ k v e. cc;
      pinning_file = λ id v e. cc;
      pk_file = λ id v params e pinned. cc;
    }

    pub reset-IsCoherent : (s : State) → IsCoherent is (reset s)
    unfolding reset get
    reset-IsCoherent s = record {
      srs_file = λ k v e. cc;
      pinning_file = λ id v e. cc;
      pk_file = λ id v params e pinned. cc;
    }

    one_params :
        (id : CircuitId) (params other : Params)
        → IsPinned is id params
        → IsPinned is id other
        → params ≡ other
    one_params id params other p q =
        let same_json = ok-injective (sym p.read ∙ q.read) in
        let same_pinning =
          ok-injective (sym p.parsed ∙ (ap lib.parse_pinning same_json ∙ q.parsed)) in
        p.shape ∙ (ap is.params_of same_pinning ∙ sym q.shape)

    -- Coherent caches over what is outside.
    abbrev pub Over : Disk FilePath World → State → Type 0
    Over disk s = IsCoherent is s × (s.disk ≡ disk)

    module _ (disk : Disk FilePath World) where
      pub get_srs-Implements : (k : ℕ) → Implements (Over disk) (get_srs lib k) (lib.read_srs k)
      unfolding get_srs
      get_srs-Implements k =
          cached-Implements {S = State} {Inv = Over disk} (λ s. get ◌==◌ k s.srs) (lib.read_srs k)
            (λ v t. record t { srs = put k v t.srs }) (λ s v (inv, same) e. inv.srs_file k v e)
            (λ s v (inv, same) read. (
              record {
                pinning_file = inv.pinning_file;
                pk_file = inv.pk_file;
                srs_file = λ l w.
                    put-holds ◌==◌ k l v w s.srs (λ j u. lib.read_srs j ≡ ok u) ℕ-IsTest read
                      inv.srs_file;
              },
              same,
            ))

      pub get_pinning-Implements :
          (id : CircuitId) → Implements (Over disk) (get_pinning lib id) (lib.read_pinning id)
      unfolding get_pinning
      get_pinning-Implements id =
          cached-Implements {S = State} {Inv = Over disk} (λ s. get lib.same_id id s.pinning)
            (lib.read_pinning id) (λ v t. record t { pinning = put id v t.pinning })
            (λ s v (inv, same) e. inv.pinning_file id v e)
            (λ s v (inv, same) read. (
              record {
                srs_file = inv.srs_file;
                pk_file = inv.pk_file;
                pinning_file = λ l w.
                    put-holds lib.same_id id l v w s.pinning (λ j u. lib.read_pinning j ≡ ok u)
                      is.is_id read inv.pinning_file;
              },
              same,
            ))

      pub get_pk-Implements :
          (id : CircuitId) (params : Params)
          → IsPinned is id params
          → Implements (Over disk) (get_pk lib id params) (lib.read_pk id params)
      unfolding get_pk
      get_pk-Implements id params pinned =
          cached-Implements {S = State} {Inv = Over disk} (λ s. get lib.same_id id s.pk)
            (lib.read_pk id params) (λ v t. record t { pk = put id v t.pk })
            (λ s v (inv, same) e. inv.pk_file id v params e pinned)
            (λ s v (inv, same) read. (
              record {
                srs_file = inv.srs_file;
                pinning_file = inv.pinning_file;
                pk_file = λ l w other held other_pinned.
                    put-holds lib.same_id id l v w s.pk
                      (λ j u. (q : Params) → IsPinned is j q → lib.read_pk j q ≡ ok u) is.is_id
                      (λ q q_pinned.
                        ap (lib.read_pk id) (one_params id q params q_pinned pinned) ∙ read)
                      (λ j u e q q_pinned. inv.pk_file j u q e q_pinned) held other other_pinned;
              },
              same,
            ))
