-- ===== src/Tests/Collector.antt =====
-- The theorem on the collector of user requests at one request.
use neu_chain.Prelude.{◌≡◌, refl, true, false, none, some, List, [], ◌∷◌, All, arith}
use neu_chain.Transaction.{Transaction, TransactionPayload, new_transaction, empty_payload}
use neu_chain.Transaction.Wire.{Bytes}
use neu_chain.ClientProxy.{EpochResponse}
use neu_chain.ClientProxy.Remote.{payload_signed, verify_batch_hash}
use neu_chain.ClientProxy.Collector.{
  UserRequest, epoch_request, collect_batch, take_response, take_response-verified,
}
use neu_chain.Tests.Wire.{plain}
use neu_chain.Tests.Proxies.{network}

abbrev asked : TransactionPayload
asked = record empty_payload { header = "getBalance"; payload = "ann" }

abbrev parsed : Bytes → TransactionPayload
parsed b = elim (plain.parse_payload b) [ none ↦ empty_payload | some p ↦ p ]

abbrev request : UserRequest
request = record { payload = plain.serialize_payload asked; digest = "s" }

abbrev collected : List Transaction
collected =
    record new_transaction { read_only = false; payload = record asked { digest = "s" } } ∷ []

abbrev answer : EpochResponse
answer = record {
  epoch = 4;
  request_batch_size = 1;
  batch_hash = (epoch_request network parsed collected).batch_hash;
  nonce = 5;
  signature = 1 ∷ [];
}

as_collected : collect_batch network parsed (request ∷ []) ≡ some collected
unfolding collect_batch neu_chain.ClientProxy.Collector.make_user_transaction
as_collected = refl

take_response-verified_example :
    (us : List Transaction) × (take_response network parsed answer 3 collected ≡ some (4, us))
    × All (λ t. (payload_signed network t ≡ true) × (4 ≡ t.epoch)) us
    × (verify_batch_hash network us answer ≡ true)
take_response-verified_example =
    take_response-verified network parsed (request ∷ []) collected answer 3 (refl, tt) as_collected
      (omega arith) refl refl refl
