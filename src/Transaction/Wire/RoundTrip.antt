-- ===== src/Transaction/Wire/RoundTrip.antt =====
-- A transaction, and its result, are read back from their bytes.
use mathlib.Core.List.{append_assoc, append-nil}
use neu_chain.Prelude.{
  ◌^◌, ◌%◌, ◌<◌, ◌≡◌, refl, sym, ap, ◌∙◌, Bool, true, false, not, none, some, [], ◌++◌, ◌==◌,
  length, if◌then◌else◌, bind-eq-some, some_inj, arith,
}
use neu_chain.Transaction.{
  Transaction, TransactionPayload, TransactionResult, commit, pending, abort, abort_no_retry,
}
use neu_chain.Transaction.Wire.{
  Bytes, Read, Coding, result_number, number_result, Decoding, failed, dead, unnamed, reads_on,
  ◌then◌, read_field, write_sized, read_sized, body, serialize_to_string, deserialize_from_string,
  serialize_result_to_string, deserialize_result_from_string, set_result,
}

read_field-run :
    {A : Type 0} (r : Read A) (set : A → Bytes → Transaction → Decoding) (b : Bytes)
    (t : Transaction) {a : A} {b' : Bytes} {t' : Transaction}
    → r b ≡ some (a, b')
    → set a b' t ≡ reads_on b' t'
    → read_field r set b t ≡ reads_on b' t'
unfolding read_field
read_field-run r set b t e f = ap (λ o. elim o [ none ↦ failed t | some p ↦ set p.0 p.1 t ]) e ∙ f

then-run :
    {A : Type 0} (x : Decoding) (r : Read A) (set : A → Bytes → Transaction → Decoding) {b : Bytes}
    {t : Transaction} {a : A} {b' : Bytes} {t' : Transaction}
    → x ≡ reads_on b t
    → r b ≡ some (a, b')
    → set a b' t ≡ reads_on b' t'
    → (x then read_field r set) ≡ reads_on b' t'
unfolding neu_chain.Transaction.Wire.◌then◌
then-run x r set {b = b} {t = t} e f g =
    ap (λ y. y then read_field r set) e ∙ read_field-run r set b t f g

reads_on-record :
    {A : Type 0} (fill : A → Transaction) (b : Bytes) {x y : A}
    → x ≡ y
    → reads_on b (fill x) ≡ reads_on b (fill y)
reads_on-record fill b e = ap (λ x. reads_on b (fill x)) e

flag : (f : Bool) → not ((if f then 1 else 0) == 0) ≡ f
flag true = refl
flag false = refl

flag-lt : (f : Bool) → (if f then 1 else 0) < 2 ^ 32
flag-lt f = ground arith

number_result-result_number : (r : TransactionResult) → number_result (result_number r) ≡ some r
number_result-result_number commit = refl
number_result-result_number pending = refl
number_result-result_number abort = refl
number_result-result_number abort_no_retry = refl

result_number-lt : (r : TransactionResult) → result_number r < 2 ^ 32
result_number-lt commit = omega arith
result_number-lt pending = omega arith
result_number-lt abort = omega arith
result_number-lt abort_no_retry = omega arith

append_four : (a b c e d : Bytes) → (a ++ (b ++ (c ++ e))) ++ d ≡ a ++ (b ++ (c ++ (e ++ d)))
append_four a b c e d =
    append_assoc a (b ++ (c ++ e)) d
    ∙ ap (λ x. a ++ x) (append_assoc b (c ++ e) d ∙ ap (λ x. b ++ x) (append_assoc c e d))

append_six :
    (a b c e f g d : Bytes)
    → (a ++ (b ++ (c ++ (e ++ (f ++ g))))) ++ d ≡ a ++ (b ++ (c ++ (e ++ (f ++ (g ++ d)))))
append_six a b c e f g d =
    append_assoc a (b ++ (c ++ (e ++ (f ++ g)))) d
    ∙ ap (λ x. a ++ x)
        (append_assoc b (c ++ (e ++ (f ++ g))) d ∙ ap (λ x. b ++ x) (append_four c e f g d))

module _ (c : Coding) where
  open c use {
    write_varint, read_varint64, read_varint32, read_string, bytes, text, serialize_payload,
    parse_payload, serialize_rw_set, parse_rw_set, hash, read_varint64-write, read_varint32-write,
    read_string-append, hash-length, text-bytes, parse_payload-serialize, parse_rw_set-serialize,
  }

  read_sized-write :
      (s b : Bytes) → length s < 2 ^ 31 → read_sized c (write_sized c s ++ b) ≡ some (s, b)
  unfolding read_sized
  read_sized-write s b h =
      ap (λ x. elim (read_varint64 x) [ none ↦ none | some p ↦ read_string (p.0 % 2 ^ 32) p.1 ])
        (append_assoc (write_varint (length s)) s b)
      ∙ ap (λ o. elim o [ none ↦ none | some p ↦ read_string (p.0 % 2 ^ 32) p.1 ])
          (read_varint64-write (length s) (s ++ b) (omega arith))
      ∙ ap (λ n. read_string n (s ++ b)) small
      ∙ read_string-append s b h
    where
      small : length s % 2 ^ 32 ≡ length s
      small = omega arith

  set_result-number :
      (r : TransactionResult) (b : Bytes) (t : Transaction)
      → set_result c (result_number r) b t ≡ reads_on b (record t { result = r })
  unfolding set_result
  set_result-number r b t =
      ap
        (λ o. elim o [
          | none ↦ unnamed (result_number r) t
          | some q ↦ reads_on b (record t { result = q })
        ])
        (number_result-result_number r)

  -- The parts of the bytes, with what follows them.
  body-append :
      (t : Transaction) (d : Bytes)
      → body c t ++ d
        ≡ write_varint t.tid
          ++ (write_varint t.epoch
              ++ (write_varint (if t.read_only then 1 else 0)
                  ++ (write_sized c (serialize_payload t.payload)
                      ++ (write_sized c (serialize_rw_set t.rw_set)
                          ++ (write_varint (result_number t.result) ++ d)))))
  body-append t d =
      append_six (write_varint t.tid) (write_varint t.epoch)
        (write_varint (if t.read_only then 1 else 0)) (write_sized c (serialize_payload t.payload))
        (write_sized c (serialize_rw_set t.rw_set)) (write_varint (result_number t.result)) d

  -- A transaction is read back from its bytes, whatever was in the one that they are read into, and
  -- whatever 32 bytes stand behind them: they are not compared with the hash. The id and the epoch
  -- are 64-bit numbers, and the payload and the set take less than 2 ^ 31 bytes.
  pub deserialize_from_string-body :
      (t u : Transaction) (d : Bytes)
      → t.tid < 2 ^ 64
      → t.epoch < 2 ^ 64
      → length (serialize_payload t.payload) < 2 ^ 31
      → length (serialize_rw_set t.rw_set) < 2 ^ 31
      → length d ≡ 32
      → deserialize_from_string c (body c t ++ d) u ≡ reads_on [] t
  unfolding deserialize_from_string
  deserialize_from_string-body t u d tid epoch payload rw_set size =
      ap (λ raw. deserialize_from_string c raw u) (body-append t d)
      ∙ then-run _ _ _
          (then-run _ _ _
            (then-run _ _ _
              (then-run _ _ _
                (then-run _ _ _
                  (then-run _ _ _ (read_field-run _ _ _ u (read_varint64-write t.tid _ tid) refl)
                    (read_varint64-write t.epoch _ epoch) refl)
                  (read_varint32-write (if t.read_only then 1 else 0) _ (flag-lt t.read_only))
                  (reads_on-record (λ f. record u { tid = t.tid; epoch = t.epoch; read_only = f }) _
                    (flag t.read_only)))
                (read_sized-write (serialize_payload t.payload) _ payload)
                (parsed_payload _
                  (record u { tid = t.tid; epoch = t.epoch; read_only = t.read_only })))
              (read_sized-write (serialize_rw_set t.rw_set) _ rw_set)
              (parsed_rw_set _ (record t { rw_set = u.rw_set; result = u.result })))
            (read_varint32-write (result_number t.result) d (result_number-lt t.result))
            (set_result-number t.result d (record t { result = u.result })))
          read_hash refl
    where
      parsed_payload :
          (b : Bytes) (w : Transaction)
          → elim (parse_payload (serialize_payload t.payload)) [
            | none ↦ dead
            | some p ↦ reads_on b (record w { payload = p })
          ]
            ≡ reads_on b (record w { payload = t.payload })
      parsed_payload b w =
          ap (λ o. elim o [ none ↦ dead | some p ↦ reads_on b (record w { payload = p }) ])
            (parse_payload-serialize t.payload)

      parsed_rw_set :
          (b : Bytes) (w : Transaction)
          → elim (parse_rw_set (serialize_rw_set t.rw_set)) [
            | none ↦ dead
            | some p ↦ reads_on b (record w { rw_set = p })
          ]
            ≡ reads_on b (record w { rw_set = t.rw_set })
      parsed_rw_set b w =
          ap (λ o. elim o [ none ↦ dead | some p ↦ reads_on b (record w { rw_set = p }) ])
            (parse_rw_set-serialize t.rw_set)

      read_hash : read_string 32 d ≡ some (d, [])
      read_hash =
          ap (λ n. read_string n d) (sym size)
          ∙ ap (read_string (length d)) (sym (append-nil d))
          ∙ read_string-append d [] (omega arith)

  -- What is written is read back: a transaction that has been serialized to some bytes is what
  -- these bytes are read as, under the same bounds.
  pub deserialize_from_string-serialize_to_string :
      (t u : Transaction) (raw : Bytes)
      → t.tid < 2 ^ 64
      → t.epoch < 2 ^ 64
      → length (serialize_payload t.payload) < 2 ^ 31
      → length (serialize_rw_set t.rw_set) < 2 ^ 31
      → serialize_to_string c t ≡ some raw
      → deserialize_from_string c raw u ≡ reads_on [] t
  deserialize_from_string-serialize_to_string t u raw tid epoch payload rw_set e =
      let (d, hashed, out) = bind-eq-some (hash (body c t)) (λ d. some (body c t ++ d)) e in
      ap (λ r. deserialize_from_string c r u) (sym (some_inj out))
      ∙ deserialize_from_string-body t u d tid epoch payload rw_set
          (hash-length (body c t) d hashed)

  -- The short format gives the id, the epoch, the digest and the result, and leaves all else as it
  -- was, where the id and the epoch are 64-bit numbers and the digest has less than 2 ^ 31 bytes.
  pub deserialize_result_from_string-serialize_result_to_string :
      (t u : Transaction)
      → t.tid < 2 ^ 64
      → t.epoch < 2 ^ 64
      → length (bytes t.payload.digest) < 2 ^ 31
      → deserialize_result_from_string c (serialize_result_to_string c t) u
        ≡ reads_on [] (record u {
          tid = t.tid;
          epoch = t.epoch;
          payload = record u.payload { digest = t.payload.digest };
          result = t.result;
        })
  unfolding deserialize_result_from_string
  deserialize_result_from_string-serialize_result_to_string t u tid epoch digest =
      then-run _ _ _
        (then-run _ _ _
          (then-run _ _ _ (read_field-run _ _ _ u (read_varint64-write t.tid _ tid) refl)
            (read_varint64-write t.epoch _ epoch) refl)
          (read_sized-write (bytes t.payload.digest) _ digest)
          (reads_on-record
            (λ s. record u {
              tid = t.tid;
              epoch = t.epoch;
              payload = record u.payload { digest = s };
            })
            _ (text-bytes t.payload.digest)))
        (ap read_varint32 (sym (append-nil (write_varint (result_number t.result))))
          ∙ read_varint32-write (result_number t.result) [] (result_number-lt t.result))
        (set_result-number t.result [] (record u {
          tid = t.tid;
          epoch = t.epoch;
          payload = record u.payload { digest = t.payload.digest };
        }))
