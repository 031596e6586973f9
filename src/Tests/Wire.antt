-- ===== src/Tests/Wire.antt =====
-- The theorems on the two formats of a transaction at concrete inputs: numbers stand for themselves,
-- and the hash of any bytes is 32 zeros.
use neu_chain.Prelude.{
  ℕ, zero, suc, ◌≡◌, refl, ap, ◌∙◌, none, some, Option, [], ◌∷◌, ◌++◌, length, sym, some_inj, arith,
}
use neu_chain.RwSet.{KvRead, KvWrite, KvRwSet}
use neu_chain.Transaction.{Transaction, TransactionPayload, new_transaction}
use neu_chain.Transaction.Wire.{Coding, body, reads_on, deserialize_from_string}
use neu_chain.Transaction.Wire.RoundTrip.{deserialize_from_string-serialize_to_string}
use neu_chain.Tests.Data.{copy, set_of}
use neu_chain.Tests.Codes.{
  Codes, Codec, number, kept_as, pair, list, flag, string, bytes, chars, chars-bytes,
}
use mathlib.Core.List.{append-nil}

abbrev payload : Codec TransactionPayload
payload =
    kept_as (λ p. ((p.header, p.payload), (p.nonce, p.digest)))
      (λ q. record { header = q.0.0; payload = q.0.1; nonce = q.1.0; digest = q.1.1 }) (λ p. refl)
      (pair (pair string string) (pair number string))

abbrev one_read : Codec KvRead
one_read =
    kept_as (λ r. (r.table, (r.key, r.value)))
      (λ q. record { table = q.0; key = q.1.0; value = q.1.1 }) (λ r. refl)
      (pair string (pair string string))

abbrev one_write : Codec KvWrite
one_write =
    kept_as (λ w. ((w.table, w.key), (w.value, w.is_delete)))
      (λ q. record { table = q.0.0; key = q.0.1; value = q.1.0; is_delete = q.1.1 }) (λ w. refl)
      (pair (pair string string) (pair string flag))

abbrev rw_set : Codec KvRwSet
rw_set =
    kept_as (λ s. (s.reads, s.writes)) (λ q. record { reads = q.0; writes = q.1 }) (λ s. refl)
      (pair (list one_read) (list one_write))

abbrev pub first_of : {A : Type 0} → Option (A × Codes) → Option A
first_of none = none
first_of (some p) = some p.0

pub first_of-read : {A : Type 0} (c : Codec A) (a : A) → first_of (c.read (c.write a)) ≡ some a
first_of-read c a =
    ap (λ b. first_of (c.read b)) (sym (append-nil (c.write a))) ∙ ap first_of (c.read-write a [])

abbrev pub take_exactly : ℕ → Codes → Option (Codes × Codes)
take_exactly zero b = some ([], b)
take_exactly (suc n) [] = none
take_exactly (suc n) (x ∷ b) = elim (take_exactly n b) [
  | none ↦ none
  | some (s, r) ↦ some (x ∷ s, r)
]

pub take_exactly-append : (s b : Codes) → take_exactly (length s) (s ++ b) ≡ some (s, b)
take_exactly-append [] b = refl
take_exactly-append (x ∷ s) b =
    ap (λ o. elim o [ none ↦ none | some p ↦ some (x ∷ p.0, p.1) ]) (take_exactly-append s b)

abbrev pub zeros : ℕ → Codes
zeros zero = []
zeros (suc n) = 0 ∷ zeros n

abbrev pub plain : Coding
plain = record {
  write_varint = number.write;
  read_varint64 = number.read;
  read_varint32 = number.read;
  read_string = take_exactly;
  bytes = bytes;
  text = chars;
  serialize_payload = payload.write;
  parse_payload = λ b. first_of (payload.read b);
  serialize_rw_set = rw_set.write;
  parse_rw_set = λ b. first_of (rw_set.read b);
  hash = λ b. some (zeros 32);
  read_varint64-write = λ n b h. refl;
  read_varint32-write = λ n b h. refl;
  read_string-append = λ s b h. take_exactly-append s b;
  hash-length = λ b d e. ap length (sym (some_inj e));
  text-bytes = chars-bytes;
  parse_payload-serialize = first_of-read payload;
  parse_rw_set-serialize = first_of-read rw_set;
}

abbrev pub sent : Transaction
sent = record (copy 7 "a" "b") { rw_set = set_of "a" "b" "a" }

deserialize_from_string-serialize_to_string_example :
    deserialize_from_string plain (body plain sent ++ zeros 32) new_transaction ≡ reads_on [] sent
deserialize_from_string-serialize_to_string_example =
    deserialize_from_string-serialize_to_string plain sent new_transaction
      (body plain sent ++ zeros 32) (omega arith) (omega arith) (omega arith) (omega arith) refl
