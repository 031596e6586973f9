-- ===== src/ClientProxy/Collector.antt =====
-- Where the batches of a local proxy come from: `processRequest` of
-- src/block_server/comm/client_proxy/user_collector.cpp. It checks and collects the requests of
-- users, and has an epoch server give them an epoch.
use neu_chain.Prelude.{
  ℕ, suc, ◌≡◌, ◌≤◌, refl, sym, ap, ◌∙◌, subst, String, true, false, Option, none, some, List, [],
  ◌∷◌, ◌++◌, map, ◌==◌, ==_iff, ltb, length, if◌then◌else◌, All, passed, bind-eq-some, some_inj,
  if_true, if_false, arith,
}
use neu_chain.Transaction.{Transaction, TransactionPayload, new_transaction}
use neu_chain.Transaction.Wire.{Bytes}
use neu_chain.ClientProxy.{Network, EpochResponse, same_bytes, digest, digests}
use neu_chain.ClientProxy.Remote.{verify_batch_hash, payload_signed, decimal}
use neu_chain.ClientProxy.Proofs.{same_bytes_refl}

-- `comm::UserRequest`.
pub record UserRequest : Type 0 where
  pub payload : Bytes
  pub digest : String

-- `comm::EpochRequest`.
pub record EpochRequest : Type 0 where
  pub request_batch_size : ℕ
  pub batch_hash : Bytes

-- What protobuf makes of the bytes of a payload, also where they are no payload.
module _ (w : Network) (parse_user_payload : Bytes → TransactionPayload) where
  unfoldable pub make_user_transaction : UserRequest → Option Transaction
  make_user_transaction r =
      if w.user_signed r.payload (w.coding.bytes r.digest)
      then some (record new_transaction {
        read_only = false;
        payload = record (parse_user_payload r.payload) { digest = r.digest };
      })
      else none

  -- The requests of a batch. A bad signature stops the process.
  unfoldable pub collect_batch : List UserRequest → Option (List Transaction)
  collect_batch [] = some []
  collect_batch (r ∷ rs) = elim (make_user_transaction r) [
    | none ↦ none
    | some t ↦ elim (collect_batch rs) [ none ↦ none | some ts ↦ some (t ∷ ts) ]
  ]

  abbrev pub epoch_request : List Transaction → EpochRequest
  epoch_request ts = record { request_batch_size = length ts; batch_hash = w.sha256 (digests w ts) }

  -- A response of an earlier epoch than the latest is not taken: the request is sent again.
  -- Otherwise, the latest epoch, and the transactions for the local proxy.
  unfoldable pub take_response :
      EpochResponse → ℕ → List Transaction → Option (ℕ × List Transaction)
  take_response response latest_epoch ts =
      if ltb response.epoch latest_epoch
      then none
      else some (
        if ltb latest_epoch response.epoch then response.epoch else latest_epoch,
        map (λ (t : Transaction). record t { epoch = response.epoch }) ts,
      )

  -- A request in the form in which protobuf writes what it has read.
  abbrev pub Canonical : UserRequest → Type 0
  Canonical r =
      w.coding.serialize_payload (record (parse_user_payload r.payload) { digest = "" }) ≡ r.payload

  abbrev with_epoch : ℕ → Transaction → Transaction
  with_epoch e t = record t { epoch = e }

  collect_batch-signed :
      (rs : List UserRequest) (ts : List Transaction)
      → All Canonical rs
      → collect_batch rs ≡ some ts
      → All (λ t. payload_signed w t ≡ true) ts
  unfolding collect_batch make_user_transaction
  collect_batch-signed [] ts h e = subst (All (λ t. payload_signed w t ≡ true)) (some_inj e) tt
  collect_batch-signed (r ∷ rs) ts h e =
      let (t, made, e1) = bind-eq-some (make_user_transaction r) _ e in
      let (rest, collected, e2) = bind-eq-some (collect_batch rs) _ e1 in
      let (signed, out) = passed (w.user_signed r.payload (w.coding.bytes r.digest)) made in
      let good : w.user_signed
            (w.coding.serialize_payload (record (parse_user_payload r.payload) { digest = "" }))
            (w.coding.bytes r.digest)
          ≡ true =
        ap (λ b. w.user_signed b (w.coding.bytes r.digest)) h.0 ∙ signed in
      subst (All (λ t. payload_signed w t ≡ true)) (some_inj e2) (
        subst (λ x. payload_signed w x ≡ true) (some_inj out) good,
        collect_batch-signed rs rest h.1 collected,
      )

  digests-with_epoch :
      (e : ℕ) (ts : List Transaction) → digests w (map (with_epoch e) ts) ≡ digests w ts
  unfolding digests
  digests-with_epoch e [] = refl
  digests-with_epoch e (t ∷ ts) = ap (λ b. digest w t ++ b) (digests-with_epoch e ts)

  length-with_epoch : (e : ℕ) (ts : List Transaction) → length (map (with_epoch e) ts) ≡ length ts
  length-with_epoch e [] = refl
  length-with_epoch e (t ∷ ts) = ap suc (length-with_epoch e ts)

  signed-with_epoch :
      (e : ℕ) (ts : List Transaction)
      → All (λ t. payload_signed w t ≡ true) ts
      → All (λ t. (payload_signed w t ≡ true) × (e ≡ t.epoch)) (map (with_epoch e) ts)
  signed-with_epoch e [] h = tt
  signed-with_epoch e (t ∷ ts) h = ((h.0, refl), signed-with_epoch e ts h.1)

  -- What the collector hands over passes the checks of every other server. Take requests in
  -- protobuf's own form that have been collected, so that each has the signature of its user, and a
  -- response of no earlier epoch than the latest to the request of the batch, with a good signature
  -- of the epoch server. Then the response is taken, its epoch becomes the latest, and the
  -- transactions that are handed over have that epoch and their users' signatures, and the response
  -- is verified as the one for them.
  pub take_response-verified :
      (rs : List UserRequest) (ts : List Transaction) (response : EpochResponse) (latest_epoch : ℕ)
      → All Canonical rs
      → collect_batch rs ≡ some ts
      → latest_epoch ≤ response.epoch
      → response.request_batch_size ≡ (epoch_request ts).request_batch_size
      → response.batch_hash ≡ (epoch_request ts).batch_hash
      → w.epoch_signed
          (decimal response.epoch ++ (response.batch_hash ++ decimal response.nonce))
          response.signature
        ≡ true
      → (us : List Transaction) × (take_response response latest_epoch ts
          ≡ some (response.epoch, us))
        × All (λ t. (payload_signed w t ≡ true) × (response.epoch ≡ t.epoch)) us
        × (verify_batch_hash w us response ≡ true)
  unfolding take_response verify_batch_hash
  take_response-verified rs ts response latest_epoch canonical collected in_time size hashed
        signed =
      let us = map (with_epoch response.epoch) ts in
      let same_size : length us ≡ response.request_batch_size =
        length-with_epoch response.epoch ts ∙ sym size in
      let same_hash : same_bytes response.batch_hash (w.sha256 (digests w us)) ≡ true =
        subst (λ b. same_bytes response.batch_hash b ≡ true)
          (hashed ∙ ap w.sha256 (sym (digests-with_epoch response.epoch ts)))
          (same_bytes_refl response.batch_hash) in
      (
        us,
        if_false (ltb response.epoch latest_epoch) _ _
              (not_earlier response.epoch latest_epoch in_time)
            ∙ ap (λ e. some (e, us)) (latest response.epoch latest_epoch in_time),
        signed-with_epoch response.epoch ts (collect_batch-signed rs ts canonical collected),
        if_true (length us == response.request_batch_size) _ _
              ((==_iff (length us) response.request_batch_size).1 same_size)
            ∙ if_true (same_bytes response.batch_hash (w.sha256 (digests w us))) _ _ same_hash
            ∙ signed,
      )
    where
      not_earlier : (e l : ℕ) → l ≤ e → ltb e l ≡ false
      not_earlier e l h = ground arith

      latest : (e l : ℕ) → l ≤ e → (if ltb l e then e else l) ≡ e
      latest e l h = ground arith
