-- ===== src/Blocks/Generator.antt =====
-- How blocks are made, chained, and checked: src/block_server/database/block_generator.cpp, its
-- impl/block_generator_impl.cpp, and block_broadcaster.cpp.
use neu_chain.Prelude.{
  ℕ, zero, suc, ◌+◌, ◌-◌, String, Bool, true, false, Option, none, some, List, [], ◌∷◌, ◌++◌, map,
  ◌==◌, ltb, leb, length, if◌then◌else◌,
}
use neu_chain.HashMap.{find, put, erase}
use neu_chain.Transaction.{Transaction}
use neu_chain.Transaction.Wire.{
  Bytes, serialize_to_string, serialize_result_to_string, result_number,
}
use neu_chain.ClientProxy.{same_bytes}
use neu_chain.Blocks.{Block, new_block, Crypto, BlockStorage, append_block, load_block}

-- The queue of transactions, the one with the greatest id at the front: `push`. Ids differ.
unfoldable pub push_pending : Transaction → List Transaction → List Transaction
push_pending t [] = t ∷ []
push_pending t (u ∷ l) =
    let rest = push_pending t l in if ltb u.tid t.tid then t ∷ u ∷ l else u ∷ rest

unfoldable pub pending_queue : List Transaction → List Transaction
pending_queue [] = []
pending_queue (t ∷ ts) = push_pending t (pending_queue ts)

-- `metadata(i)`.
unfoldable pub metadata_at : ℕ → List Bytes → Option Bytes
metadata_at i [] = none
metadata_at zero (x ∷ l) = some x
metadata_at (suc i) (x ∷ l) = metadata_at i l

-- The blocks for early answers, those of the last hundred epochs, and the last epoch.
pub record PartialBlocks : Type 0 where
  pub blocks : List (ℕ × Block)
  pub partial_epoch : ℕ

unfoldable pub store_partial : ℕ → Block → PartialBlocks → PartialBlocks
store_partial epoch b p =
    let stored = put ◌==◌ epoch b p.blocks in
    record {
      blocks = if ltb 100 epoch then erase ◌==◌ (epoch - 100) stored else stored;
      partial_epoch = epoch;
    }

abbrev pub get_partial_block : ℕ → PartialBlocks → Option Block
get_partial_block epoch p = find ◌==◌ epoch p.blocks

-- What the thread that makes headers keeps, with the blocks that it has passed on to the broadcaster.
pub record Generator : Type 0 where
  pub storage : BlockStorage
  pub previous_data_hash : Bytes
  pub verify_buffer : List Block

module _ (c : Crypto) where
  open c use {coding, leaf_hash, merkle_root, rsa_encrypt, rsa_decrypt}

  abbrev pub partial_block : ℕ → List Transaction → Block
  partial_block epoch queue = record new_block {
    number = epoch;
    data_list = map (serialize_result_to_string coding) queue;
  }

  unfoldable pub serialize_all : List Transaction → Option (List Bytes)
  serialize_all [] = some []
  serialize_all (t ∷ ts) = elim (serialize_to_string coding t) [
    | none ↦ none
    | some raw ↦ elim (serialize_all ts) [ none ↦ none | some raws ↦ some (raw ∷ raws) ]
  ]

  abbrev pub results_of : List Transaction → Bytes
  results_of queue = map (λ (t : Transaction). result_number t.result) queue

  -- `generateBlockBody`, on the server of that ip.
  unfoldable pub generate_block_body :
      String → ℕ → List Transaction → PartialBlocks → Option (Block × PartialBlocks)
  generate_block_body ip epoch queue p = elim (serialize_all queue) [
    | none ↦ none
    | some raws ↦ elim (merkle_root (map leaf_hash raws)) [
      | none ↦ none
      | some root ↦ elim (rsa_encrypt ip root) [
        | none ↦ none
        | some signature ↦ some (
          record new_block {
            data_list = raws;
            metadata = results_of queue ∷ root ∷ signature ∷ [];
          },
          store_partial epoch (partial_block epoch queue) p,
        )
      ]
    ]
  ]

  -- The hash in the header.
  abbrev pub hash_metadata : Block → Option Bytes
  hash_metadata b = elim (metadata_at 0 b.metadata) [
    | none ↦ none
    | some results ↦ elim (metadata_at 1 b.metadata) [
      | none ↦ none
      | some root ↦ coding.hash (results ++ root)
    ]
  ]

  -- The block with its header, and the hash that is kept for the next.
  unfoldable pub generate_block_header : Bytes → BlockStorage → Block → Option (Block × Bytes)
  generate_block_header previous_data_hash s b = elim (hash_metadata b) [
    | none ↦ none
    | some hash_result ↦
        let last_epoch = s.buffered_epoch in
        let numbered = record b { data_hash = hash_result; number = last_epoch + 1 } in
        if ltb 0 last_epoch
        then elim (load_block c last_epoch s) [
          | none ↦ none
          | some previous ↦
              if same_bytes previous.data_hash previous_data_hash
              then some (record numbered { previous_hash = previous_data_hash }, hash_result)
              else none
        ]
        else some (numbered, hash_result)
  ]

  -- One round of `run`.
  unfoldable pub run_block : Block → Generator → Option Generator
  run_block body g = elim (generate_block_header g.previous_data_hash g.storage body) [
    | none ↦ none
    | some (b, hash_result) ↦ elim (append_block c b g.storage) [
      | none ↦ none
      | some s ↦ some (record {
        storage = s;
        previous_data_hash = hash_result;
        verify_buffer = b ∷ g.verify_buffer;
      })
    ]
  ]

  unfoldable pub run_blocks : List Block → Generator → Option Generator
  run_blocks [] g = some g
  run_blocks (body ∷ bodies) g = elim (run_block body g) [
    | none ↦ none
    | some g' ↦ run_blocks bodies g'
  ]

  -- `signatureValidate`: anything but true stops the process.
  unfoldable pub signature_validate : Bool → String → Bytes → Block → Option Bool
  signature_validate skip_verify ip signature b = elim (metadata_at 1 b.metadata) [
    | none ↦ none
    | some written ↦
        if skip_verify
        then if rsa_decrypt ip written signature then some true else none
        else elim (merkle_root (map leaf_hash b.data_list)) [
          | none ↦ none
          | some root ↦
              if same_bytes root written
              then if rsa_decrypt ip root signature then some true else none
              else none
        ]
  ]

  -- `deserializeBlock`, on the server of that ip: nothing, when it stops; no block, when it returns
  -- false.
  unfoldable pub deserialize_block : String → ℕ → Bool → Bool → BlockStorage → Option (Option Block)
  deserialize_block ip epoch verify validate s = elim (load_block c epoch s) [
    | none ↦ some none
    | some b ↦
        let validated =
          if validate
          then elim (metadata_at 2 b.metadata) [
            | none ↦ none
            | some signature ↦ elim (signature_validate true ip signature b) [
              | none ↦ none
              | some ok ↦ some (some b)
            ]
          ]
          else some (some b) in
        if verify
        then elim (metadata_at 0 b.metadata) [
          | none ↦ none
          | some results ↦ elim (metadata_at 1 b.metadata) [
            | none ↦ none
            | some root ↦ elim (coding.hash (c.serialize_data b.data_list ++ (results ++ root))) [
              | none ↦ some none
              | some hash_result ↦
                  if same_bytes hash_result b.data_hash
                  then if ltb (length b.metadata) 3 then some none else validated
                  else some none
            ]
          ]
        ]
        else validated
  ]

  -- What `blockVerifier` sends of a block: its epoch and its signature.
  unfoldable pub signature_exchange : Block → Option (ℕ × Bytes)
  signature_exchange b =
      if leb 3 (length b.metadata)
      then elim (metadata_at 2 b.metadata) [
        | none ↦ none
        | some signature ↦ some (b.number, signature)
      ]
      else none

  -- `signatureVerifyCallback`, for another server's signature, once the block of the epoch is there.
  unfoldable pub signature_verify_callback :
      String → String → ℕ × Bytes → BlockStorage → Option Bool
  signature_verify_callback ip remote_ip (epoch, signature) s =
      elim (deserialize_block ip epoch false false s) [
        | none ↦ none
        | some none ↦ none
        | some (some b) ↦ signature_validate true remote_ip signature b
      ]
