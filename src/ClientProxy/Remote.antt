-- ===== src/ClientProxy/Remote.antt =====
-- A remote proxy: `receiveFromOtherServer`, with its checks on what the other server sends.
use neu_chain.Prelude.{
  ℕ, zero, suc, ◌+◌, ◌/◌, ◌%◌, Bool, true, false, not, ◌&&◌, Option, none, some, List, [], ◌∷◌,
  ◌++◌, map, ◌==◌, leb, length, if◌then◌else◌,
}
use neu_chain.Transaction.{Transaction, new_transaction}
use neu_chain.Transaction.Wire.{Bytes, failed, dead, unnamed, reads_on, deserialize_from_string}
use neu_chain.Consensus.{tx, con, heartbeat, malicious}
use neu_chain.ClientProxy.{
  BufferCall, EpochResponse, Network, TransactionSet, async_empty, digest, digests, next_epoch,
  push_transaction, same_bytes, with_id,
}

-- `std::to_string`: twenty digits are enough for 64 bits.
unfoldable pub digits : ℕ → ℕ → Bytes → Bytes
digits zero n acc = acc
digits (suc k) n acc =
    let rest = digits k (n / 10) ((48 + n % 10) ∷ acc) in
    if n / 10 == 0 then (48 + n % 10) ∷ acc else rest

abbrev pub decimal : ℕ → Bytes
decimal n = digits 20 n []

pub record RemoteProxy : Type 0 where
  pub epoch : ℕ
  pub current_epoch_proof_set : List Bytes

-- A failed `CHECK` stops the process, and so does, here, a transaction whose result is no result;
-- one of the two exceptions ends the loop.
pub data Outcome : Type 0 where
  stopped : Outcome
  malicious_proxy : RemoteProxy → List BufferCall → Outcome
  invalid_proxy : RemoteProxy → List BufferCall → Outcome
  goes_on : RemoteProxy → List BufferCall → Outcome

-- `std::set::count` and `insert`.
unfoldable pub has_proof : Bytes → List Bytes → Bool
has_proof k [] = false
has_proof k (j ∷ l) = if same_bytes j k then true else has_proof k l

unfoldable pub insert_proof : Bytes → List Bytes → List Bytes
insert_proof k l = if has_proof k l then l else k ∷ l

unfoldable pub has_proofs : List Bytes → List Bytes → Bool
has_proofs [] l = true
has_proofs (k ∷ ks) l = has_proof k l && has_proofs ks l

-- The indices from 0 in steps of two.
unfoldable pub evens : {A : Type 0} → List A → List A
evens [] = []
evens (x ∷ []) = x ∷ []
evens (x ∷ y ∷ l) = x ∷ evens l

unfoldable pub odds : {A : Type 0} → List A → List A
odds [] = []
odds (x ∷ l) = evens l

-- The calls that come before an outcome.
abbrev pub after_calls : List BufferCall → Outcome → Outcome
after_calls l stopped = stopped
after_calls l (malicious_proxy s k) = malicious_proxy s (l ++ k)
after_calls l (invalid_proxy s k) = invalid_proxy s (l ++ k)
after_calls l (goes_on s k) = goes_on s (l ++ k)

module _ (w : Network) where
  open w use {coding, sha256, user_signed, epoch_signed, parse_response, parse_set}

  unfoldable pub verify_batch_hash : List Transaction → EpochResponse → Bool
  verify_batch_hash ts r =
      if length ts == r.request_batch_size
      then if same_bytes r.batch_hash (sha256 (digests w ts))
        then epoch_signed (decimal r.epoch ++ (r.batch_hash ++ decimal r.nonce)) r.signature
        else false
      else false

  unfoldable pub make_transaction : Bytes → Option Transaction
  make_transaction raw = elim (deserialize_from_string coding raw new_transaction) [
    | failed t ↦ none
    | dead ↦ none
    | unnamed n t ↦ none
    | reads_on b t ↦ some t
  ]

  abbrev pub payload_signed : Transaction → Bool
  payload_signed t =
      user_signed (coding.serialize_payload (record t.payload { digest = "" })) (digest w t)

  -- One of the two workers, on the transactions that are its own: it breaks off at a bad signature.
  unfoldable pub check_worker : List Bytes → Option Bool
  check_worker [] = some true
  check_worker (raw ∷ l) =
      let rest = check_worker l in
      elim (make_transaction raw) [
        | none ↦ none
        | some t ↦ if payload_signed t then rest else some false
      ]

  unfoldable pub make_transactions : List Bytes → Option (List Transaction)
  make_transactions [] = some []
  make_transactions (raw ∷ l) = elim (make_transaction raw) [
    | none ↦ none
    | some t ↦ elim (make_transactions l) [ none ↦ none | some ts ↦ some (t ∷ ts) ]
  ]

  -- Nothing when the process stops; no list when a signature is bad.
  unfoldable pub checked_transactions : List Bytes → Option (Option (List Transaction))
  checked_transactions raws = elim (check_worker (evens raws)) [
    | none ↦ none
    | some a ↦ elim (check_worker (odds raws)) [
      | none ↦ none
      | some b ↦
          if a && b
          then elim (make_transactions raws) [ none ↦ none | some ts ↦ some (some ts) ]
          else some none
    ]
  ]

  unfoldable pub all_of_epoch : ℕ → List Transaction → Bool
  all_of_epoch epoch [] = true
  all_of_epoch epoch (t ∷ ts) = (t.epoch == epoch) && all_of_epoch epoch ts

  unfoldable pub receive_proofs : TransactionSet → RemoteProxy → Outcome
  receive_proofs m s =
      if s.epoch == m.epoch
      then if has_proofs m.data_list s.current_epoch_proof_set
        then if length m.data_list == length s.current_epoch_proof_set
          then goes_on (record { epoch = next_epoch s.epoch; current_epoch_proof_set = [] })
              (async_empty s.epoch ∷ [])
          else stopped
        else stopped
      else stopped

  unfoldable pub push_checked : EpochResponse → List Transaction → RemoteProxy → Outcome
  push_checked response ts s =
      if verify_batch_hash ts response
      then if all_of_epoch s.epoch ts
        then goes_on s (map push_transaction (map (with_id w response.signature) ts))
        else stopped
      else malicious_proxy s []

  unfoldable pub receive_transactions : TransactionSet → RemoteProxy → Outcome
  receive_transactions m s0 =
      let response = parse_response m.proof in
      let s = record s0 {
        current_epoch_proof_set = insert_proof response.signature s0.current_epoch_proof_set;
      } in
      if s0.epoch == response.epoch
      then elim (checked_transactions m.data_list) [
        | none ↦ stopped
        | some none ↦ malicious_proxy s []
        | some (some ts) ↦ push_checked response ts s
      ]
      else malicious_proxy s0 []

  -- `receiveFromOtherServer`, one message.
  unfoldable pub receive_remote : Bytes → RemoteProxy → Outcome
  receive_remote raw s = elim (parse_set raw) [
    | none ↦ stopped
    | some m ↦ elim m.type [
      | con ↦ receive_proofs m s
      | tx ↦ receive_transactions m s
      | heartbeat ↦ receive_transactions m s
      | malicious ↦ receive_transactions m s
    ]
  ]

  -- The loop of a remote proxy.
  unfoldable pub run_remote : List Bytes → RemoteProxy → Outcome
  run_remote [] s = goes_on s []
  run_remote (raw ∷ l) s = elim (receive_remote raw s) [
    | goes_on s' calls ↦ after_calls calls (run_remote l s')
    | malicious_proxy s' calls ↦ malicious_proxy s' calls
    | invalid_proxy s' calls ↦ invalid_proxy s' calls
    | stopped ↦ stopped
  ]

-- No message for a tenth of a second: has the server been marked, from what epoch on?
unfoldable pub wait_timed : ℕ × Bool → RemoteProxy → Outcome
wait_timed (since, bit) s = if bit && leb since s.epoch then invalid_proxy s [] else goes_on s []

-- The loop behind the exceptions: the epochs go on without transactions.
unfoldable pub empty_epochs : ℕ → RemoteProxy → RemoteProxy × List BufferCall
empty_epochs zero s = (s, [])
empty_epochs (suc rounds) s =
    let (s', calls) = empty_epochs rounds (record s { epoch = next_epoch s.epoch }) in
    (s', async_empty s.epoch ∷ calls)

-- The handler that the consensus calls for a malicious server: a second call stops the process,
-- unless the first was for epoch 0.
unfoldable pub on_malicious : ℕ → ℕ × Bool → Option (ℕ × Bool)
on_malicious malicious_epoch (since, bit) =
    if not (since == 0) then none else some (malicious_epoch, true)
