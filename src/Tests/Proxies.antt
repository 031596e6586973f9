-- ===== src/Tests/Proxies.antt =====
-- The theorem on the two proxies of a transaction's way, at a concrete network: numbers stand for
-- themselves, a hash is the bytes themselves, and what has a signature is signed.
use neu_chain.Prelude.{
  ℕ, ◌≡◌, refl, ap, ◌≢◌, some, List, [], ◌∷◌, length, ◌==◌, not, true, false, if◌then◌else◌, arith,
}
use neu_chain.Transaction.Wire.{Bytes}
use neu_chain.Consensus.{ProofType, tx, con, heartbeat, malicious}
use neu_chain.ClientProxy.{Network, EpochResponse, TransactionSet}
use neu_chain.ClientProxy.Local.{LocalProxy, Emitted, run_local, transaction_set}
use neu_chain.ClientProxy.Remote.{RemoteProxy, run_remote, goes_on, verify_batch_hash}
use neu_chain.ClientProxy.Sends.{Signed}
use neu_chain.ClientProxy.Checks.{Trusted, calls_of, run_remote-Trusted}
use neu_chain.ClientProxy.Follows.{Batch}
use neu_chain.ClientProxy.Honest.{run_remote-run_local}
use neu_chain.Tests.Codes.{Codec, number, kept_as, pair, list, string, bytes}
use neu_chain.Tests.Wire.{plain, first_of, first_of-read, zeros, sent}

abbrev pub kind_number : ProofType → ℕ
kind_number tx = 0
kind_number con = 1
kind_number heartbeat = 2
kind_number malicious = 3

abbrev pub number_kind : ℕ → ProofType
number_kind n =
    if n == 0 then tx else if n == 1 then con else if n == 2 then heartbeat else malicious

pub number_kind_lem : (k : ProofType) → number_kind (kind_number k) ≡ k
number_kind_lem tx = refl
number_kind_lem con = refl
number_kind_lem heartbeat = refl
number_kind_lem malicious = refl

abbrev pub message : Codec TransactionSet
message =
    kept_as (λ m. ((m.epoch, kind_number m.type), (m.proof, (m.ip, m.data_list))))
      (λ q. record {
        epoch = q.0.0;
        type = number_kind q.0.1;
        proof = q.1.0;
        ip = q.1.1.0;
        data_list = q.1.1.1;
      })
      (λ m. ap (λ k. record m { type = k }) (number_kind_lem m.type))
      (pair (pair number number) (pair (list number) (pair string (list (list number)))))

abbrev pub network : Network
network = record {
  coding = plain;
  sha256 = λ b. b;
  user_signed = λ m s. not (length m == 0);
  epoch_signed = λ m s. not (length s == 0);
  parse_response = λ raw. record {
    epoch = sent.epoch;
    request_batch_size = 1;
    batch_hash = bytes sent.payload.digest;
    nonce = 5;
    signature = raw;
  };
  serialize_set = message.write;
  parse_set = λ b. first_of (message.read b);
  parse_set-serialize = first_of-read message;
}

-- Two batches of one epoch, with different signatures.
abbrev batches : List Batch
batches = (1 ∷ [], sent ∷ []) ∷ (2 ∷ [], sent ∷ []) ∷ []

signed : Signed network sent
signed = (omega arith, omega arith, omega arith, omega arith, refl)

verified :
    (raw : Bytes)
    → (length raw == 0) ≡ false
    → verify_batch_hash network (sent ∷ []) (network.parse_response raw) ≡ true
unfolding verify_batch_hash neu_chain.ClientProxy.same_bytes neu_chain.ClientProxy.digests
verified raw h = ap not h

abbrev first_byte : Bytes → ℕ
first_byte [] = 0
first_byte (x ∷ b) = x

other : ◌≢◌ {A = Bytes} (1 ∷ []) (2 ∷ [])
other p = ground (arith, ap first_byte p)

run_remote-run_local_example :
    (s : LocalProxy) × (out : Emitted) × (r : RemoteProxy) × (run_local network "here" batches
        (record { epoch = 0; proof_data = [] })
      ≡ some (s, out))
    × (run_remote network out.sent (record { epoch = 0; current_epoch_proof_set = [] })
        ≡ goes_on r out.calls)
    × (r.epoch ≡ s.epoch)
unfolding neu_chain.ClientProxy.Honest.Ready
run_remote-run_local_example =
    run_remote-run_local network "here" (λ b. (zeros 32, refl)) batches 0
      (
        omega arith,
        omega arith,
        (refl, tt),
        (signed, tt),
        verified (1 ∷ []) refl,
        (omega arith, omega arith, (refl, tt), (signed, tt), verified (2 ∷ []) refl, tt),
      )
      ((other, tt), (tt, tt))

-- A batch, the end of the epoch, and a batch of the epoch before.
abbrev received : List Bytes
received =
    network.serialize_set (transaction_set network 4 (1 ∷ []) [])
    ∷ network.serialize_set
        (record { epoch = 4; type = con; proof = []; ip = ""; data_list = (1 ∷ []) ∷ [] })
    ∷ network.serialize_set (transaction_set network 4 (2 ∷ []) [])
    ∷ []

run_remote-Trusted_example :
    Trusted network 4
      (calls_of (run_remote network received (record { epoch = 4; current_epoch_proof_set = [] })))
run_remote-Trusted_example =
    run_remote-Trusted network received (record { epoch = 4; current_epoch_proof_set = [] })
