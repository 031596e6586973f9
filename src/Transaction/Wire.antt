-- ===== src/Transaction/Wire.antt =====
-- The two formats of a transaction, src/block_server/transaction/mock/mock_transaction.cpp: whole,
-- with a hash behind it, and only its result. protobuf and the hash function are parameters.
pub mod RoundTrip
use neu_chain.Prelude.{
  ℕ, ◌^◌, ◌%◌, ◌<◌, ◌≡◌, String, Bool, true, false, not, Option, none, some, List, [], ◌∷◌, ◌++◌,
  ◌==◌, length, if◌then◌else◌,
}
use neu_chain.RwSet.{KvRwSet}
use neu_chain.Transaction.{
  Transaction, TransactionPayload, TransactionResult, commit, pending, abort, abort_no_retry,
}

abbrev pub Bytes : Type 0
Bytes = List ℕ

abbrev pub Read : Type 0 → Type 0
Read A = Bytes → Option (A × Bytes)

-- What the code uses of protobuf's streams and messages, and of `SHA256Helper`. A call that
-- returns false has no result.
pub record Coding : Type 0 where
  pub write_varint : ℕ → Bytes
  pub read_varint64 : Read ℕ
  pub read_varint32 : Read ℕ
  pub read_string : ℕ → Read Bytes
  pub bytes : String → Bytes
  pub text : Bytes → String
  pub serialize_payload : TransactionPayload → Bytes
  pub parse_payload : Bytes → Option TransactionPayload
  pub serialize_rw_set : KvRwSet → Bytes
  pub parse_rw_set : Bytes → Option KvRwSet
  pub hash : Bytes → Option Bytes
  pub read_varint64-write :
      (n : ℕ) (b : Bytes) → n < 2 ^ 64 → read_varint64 (write_varint n ++ b) ≡ some (n, b)
  pub read_varint32-write :
      (n : ℕ) (b : Bytes) → n < 2 ^ 32 → read_varint32 (write_varint n ++ b) ≡ some (n, b)
  pub read_string-append :
      (s b : Bytes) → length s < 2 ^ 31 → read_string (length s) (s ++ b) ≡ some (s, b)
  pub hash-length : (b d : Bytes) → hash b ≡ some d → length d ≡ 32
  pub text-bytes : (s : String) → text (bytes s) ≡ s
  pub parse_payload-serialize :
      (p : TransactionPayload) → parse_payload (serialize_payload p) ≡ some p
  pub parse_rw_set-serialize : (s : KvRwSet) → parse_rw_set (serialize_rw_set s) ≡ some s

-- `static_cast` between a result and a number.
abbrev pub result_number : TransactionResult → ℕ
result_number commit = 0
result_number pending = 1
result_number abort = 2
result_number abort_no_retry = 3

abbrev pub number_result : ℕ → Option TransactionResult
number_result n =
    if n == 0
    then some commit
    else if n == 1
    then some pending
    else if n == 2
    then some abort
    else if n == 3
    then some abort_no_retry
    else none

-- Where a decoding is: it has returned false and left the transaction so, a `CHECK` has stopped the
-- process, it has read a number that is none of the four results, or it goes on with the bytes that
-- are left.
pub data Decoding : Type 0 where
  failed : Transaction → Decoding
  dead : Decoding
  unnamed : ℕ → Transaction → Decoding
  reads_on : Bytes → Transaction → Decoding

infixl 5 ◌then◌
unfoldable pub ◌then◌ : Decoding → (Bytes → Transaction → Decoding) → Decoding
(failed t) then f = failed t
dead then f = dead
(unnamed n t) then f = unnamed n t
(reads_on b t) then f = f b t

-- One block of the code: a read that may fail, and what is done with the value.
unfoldable pub read_field :
    {A : Type 0} → Read A → (A → Bytes → Transaction → Decoding) → Bytes → Transaction → Decoding
read_field r set b t = elim (r b) [ none ↦ failed t | some (a, b') ↦ set a b' t ]

module _ (c : Coding) where
  open c use {
    write_varint, read_varint64, read_varint32, read_string, bytes, text, serialize_payload,
    parse_payload, serialize_rw_set, parse_rw_set, hash,
  }

  -- A size, then as many bytes.
  abbrev pub write_sized : Bytes → Bytes
  write_sized s = write_varint (length s) ++ s

  -- A size that is 64 bits wide is passed on as an `int`.
  unfoldable pub read_sized : Read Bytes
  read_sized b = elim (read_varint64 b) [ none ↦ none | some (n, b') ↦ read_string (n % 2 ^ 32) b' ]

  abbrev pub body : Transaction → Bytes
  body t =
      write_varint t.tid
      ++ (write_varint t.epoch
          ++ (write_varint (if t.read_only then 1 else 0)
              ++ (write_sized (serialize_payload t.payload)
                  ++ (write_sized (serialize_rw_set t.rw_set)
                      ++ write_varint (result_number t.result)))))

  abbrev pub serialize_to_string : Transaction → Option Bytes
  serialize_to_string t = elim (hash (body t)) [ none ↦ none | some d ↦ some (body t ++ d) ]

  unfoldable pub set_result : ℕ → Bytes → Transaction → Decoding
  set_result n b t = elim (number_result n) [
    | none ↦ unnamed n t
    | some r ↦ reads_on b (record t { result = r })
  ]

  -- The hash is read, and not compared.
  unfoldable pub deserialize_from_string : Bytes → Transaction → Decoding
  unfolding set_result
  deserialize_from_string raw t0 =
      read_field read_varint64 (λ n b t. reads_on b (record t { tid = n })) raw t0
      then read_field read_varint64 (λ n b t. reads_on b (record t { epoch = n }))
      then read_field read_varint32 (λ n b t. reads_on b (record t { read_only = not (n == 0) }))
      then read_field read_sized (λ s b t. elim (parse_payload s) [
        | none ↦ dead
        | some p ↦ reads_on b (record t { payload = p })
      ])
      then read_field read_sized (λ s b t. elim (parse_rw_set s) [
        | none ↦ dead
        | some w ↦ reads_on b (record t { rw_set = w })
      ])
      then read_field read_varint32 set_result
      then read_field (read_string 32) (λ s b t. reads_on b t)

  abbrev pub serialize_result_to_string : Transaction → Bytes
  serialize_result_to_string t =
      write_varint t.tid
      ++ (write_varint t.epoch
          ++ (write_sized (bytes t.payload.digest) ++ write_varint (result_number t.result)))

  unfoldable pub deserialize_result_from_string : Bytes → Transaction → Decoding
  unfolding set_result
  deserialize_result_from_string raw t0 =
      read_field read_varint64 (λ n b t. reads_on b (record t { tid = n })) raw t0
      then read_field read_varint64 (λ n b t. reads_on b (record t { epoch = n }))
      then read_field read_sized
          (λ s b t. reads_on b (record t { payload = record t.payload { digest = text s } }))
      then read_field read_varint32 set_result
