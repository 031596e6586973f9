-- ===== src/Blocks.antt =====
-- Blocks, include/proto/block.proto, and where they are kept:
-- src/block_server/database/impl/block_storage_to_file.cpp, the storage that is configured.
pub mod Generator
pub mod Order
pub mod Agreement
pub mod Headers
pub mod Chain
pub mod Restart
use neu_chain.Prelude.{ℕ, ◌≡◌, Bool, Option, none, some, List, [], String, ◌==◌, ltb, if◌then◌else◌}
use neu_chain.HashMap.{find, put}
use neu_chain.Transaction.Wire.{Coding, Bytes}

pub record Block : Type 0 where
  pub number : ℕ
  pub previous_hash : Bytes
  pub data_hash : Bytes
  pub data_list : List Bytes
  pub metadata : List Bytes

abbrev pub new_block : Block
new_block = record { number = 0; previous_hash = []; data_hash = []; data_list = []; metadata = [] }

-- What is used of protobuf, of the hash functions, of the tree of hashes and of signatures. The root
-- of an empty tree is read from a null pointer: it has no result.
pub record Crypto : Type 0 where
  pub coding : Coding
  pub serialize_block : Block → Bytes
  pub parse_block : Bytes → Option Block
  pub serialize_data : List Bytes → Bytes
  pub leaf_hash : Bytes → Bytes
  pub merkle_root : List Bytes → Option Bytes
  pub rsa_encrypt : String → Bytes → Option Bytes
  pub rsa_decrypt : String → Bytes → Bytes → Bool
  pub parse_block-serialize : (b : Block) → parse_block (serialize_block b) ≡ some b

-- The files <epoch>.bin and block_num.txt, and which of them can be written.
pub record Disk : Type 0 where
  pub files : List (ℕ × Bytes)
  pub block_num : ℕ
  pub writable : ℕ → Bool

pub record BlockStorage : Type 0 where
  pub disk : Disk
  pub buffered_epoch : ℕ

-- The constructor, with `resetEpoch`.
abbrev pub open_storage : Bool → Disk → BlockStorage
open_storage reset d =
    if reset
    then record { disk = record d { block_num = 0 }; buffered_epoch = 0 }
    else record { disk = d; buffered_epoch = d.block_num }

module _ (c : Crypto) where
  unfoldable pub insert_block : Block → BlockStorage → Option BlockStorage
  insert_block b s =
      if s.disk.writable b.number
      then some (record {
        disk = record s.disk { files = put ◌==◌ b.number (c.serialize_block b) s.disk.files };
        buffered_epoch = b.number;
      })
      else none

  abbrev pub update_latest_saved_epoch : BlockStorage → BlockStorage
  update_latest_saved_epoch s = record s { disk = record s.disk { block_num = s.buffered_epoch } }

  abbrev pub append_block : Block → BlockStorage → Option BlockStorage
  append_block b s = elim (insert_block b s) [
    | none ↦ none
    | some s' ↦ some (update_latest_saved_epoch s')
  ]

  unfoldable pub load_block : ℕ → BlockStorage → Option Block
  load_block epoch s =
      if ltb s.buffered_epoch epoch
      then none
      else elim (find ◌==◌ epoch s.disk.files) [ none ↦ none | some raw ↦ c.parse_block raw ]
