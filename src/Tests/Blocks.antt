-- ===== src/Tests/Blocks.antt =====
-- The theorems on blocks at concrete inputs: a signature is what is signed, the root of a tree is its
-- first leaf, and an empty tree has none.
use mathlib.Core.List.Permᴰ.{swap}
use neu_chain.Prelude.{
  ◌≡◌, refl, true, false, Option, none, some, some_inj, subst, List, [], ◌∷◌, String, map, arith,
}
use neu_chain.Transaction.{Transaction}
use neu_chain.Transaction.Wire.{Bytes}
use neu_chain.ClientProxy.{same_bytes}
use neu_chain.ClientProxy.Proofs.{same_bytes_refl}
use neu_chain.Blocks.{Block, new_block, Crypto, Disk, BlockStorage, load_block}
use neu_chain.Blocks.Generator.{
  PartialBlocks, Generator, pending_queue, generate_block_body, run_block, run_blocks,
  signature_exchange, signature_verify_callback, signature_validate, metadata_at,
}
use neu_chain.Blocks.Agreement.{with_header, generate_block_body-agrees}
use neu_chain.Blocks.Headers.{Kept, load_block-found}
use neu_chain.Blocks.Chain.{content, last_first, fresh_generator, run_blocks-Kept}
use neu_chain.Blocks.Restart.{restarted, run_block-restart}
use neu_chain.Tests.Data.{copy}
use neu_chain.Tests.Codes.{Codec, number, kept_as, pair, list}
use neu_chain.Tests.Wire.{plain, first_of, first_of-read, zeros}

abbrev block_code : Codec Block
block_code =
    kept_as (λ b. (b.number, ((b.previous_hash, b.data_hash), (b.data_list, b.metadata))))
      (λ q. record {
        number = q.0;
        previous_hash = q.1.0.0;
        data_hash = q.1.0.1;
        data_list = q.1.1.0;
        metadata = q.1.1.1;
      })
      (λ b. refl)
      (pair number
        (pair (pair (list number) (list number)) (pair (list (list number)) (list (list number)))))

abbrev first_leaf : List Bytes → Option Bytes
first_leaf [] = none
first_leaf (x ∷ l) = some x

abbrev crypto : Crypto
crypto = record {
  coding = plain;
  serialize_block = block_code.write;
  parse_block = λ b. first_of (block_code.read b);
  serialize_data = (list (list number)).write;
  leaf_hash = λ b. b;
  merkle_root = first_leaf;
  rsa_encrypt = λ ip r. some r;
  rsa_decrypt = λ ip r s. same_bytes r s;
  parse_block-serialize = first_of-read block_code;
}

abbrev no_partials : PartialBlocks
no_partials = record { blocks = []; partial_epoch = 0 }

abbrev ahead : List Transaction
ahead = copy 1 "a" "b" ∷ copy 2 "c" "b" ∷ []

abbrev back : List Transaction
back = copy 2 "c" "b" ∷ copy 1 "a" "b" ∷ []

abbrev body_of : String → List Transaction → Block × PartialBlocks
body_of ip ts = elim (generate_block_body crypto ip 4 (pending_queue ts) no_partials) [
  | none ↦ (new_block, no_partials)
  | some p ↦ p
]

abbrev shelf : Disk
shelf = record {
  files = (4, block_code.write (with_header crypto 4 ([], []) (body_of "there" back).0)) ∷ [];
  block_num = 4;
  writable = λ n. true;
}

abbrev kept_there : BlockStorage
kept_there = record { disk = shelf; buffered_epoch = 4 }

here_made :
    generate_block_body crypto "here" 4 (pending_queue ahead) no_partials
    ≡ some (body_of "here" ahead)
unfolding generate_block_body neu_chain.Blocks.Generator.serialize_all pending_queue
    neu_chain.Blocks.Generator.push_pending
here_made = refl

there_made :
    generate_block_body crypto "there" 4 (pending_queue back) no_partials
    ≡ some (body_of "there" back)
unfolding generate_block_body neu_chain.Blocks.Generator.serialize_all pending_queue
    neu_chain.Blocks.Generator.push_pending
there_made = refl

found_there :
    load_block crypto 4 kept_there ≡ some (with_header crypto 4 ([], []) (body_of "there" back).0)
unfolding neu_chain.HashMap.find
found_there =
    load_block-found crypto 4 kept_there (with_header crypto 4 ([], []) (body_of "there" back).0)
      (omega arith) refl

generate_block_body-agrees_example :
    (signature : Bytes) × (signature_exchange crypto
        (with_header crypto 4 ([], []) (body_of "here" ahead).0)
      ≡ some (4, signature))
    × (signature_verify_callback crypto "there" "here" (4, signature) kept_there ≡ some true)
    × (signature_validate crypto false "here" signature (body_of "there" back).0 ≡ some true)
    × ((body_of "there" back).0.data_list ≡ (body_of "here" ahead).0.data_list)
    × (metadata_at 0 (body_of "there" back).0.metadata
        ≡ metadata_at 0 (body_of "here" ahead).0.metadata)
    × (metadata_at 1 (body_of "there" back).0.metadata
        ≡ metadata_at 1 (body_of "here" ahead).0.metadata)
generate_block_body-agrees_example =
    generate_block_body-agrees crypto "here" "there" 4 4 ahead back no_partials
      (body_of "here" ahead).1 no_partials (body_of "there" back).1 (body_of "here" ahead).0
      (body_of "there" back).0 ([], []) ([], []) kept_there (swap refl refl)
      ((λ p. ground (arith, p), tt), (tt, tt)) here_made there_made signed found_there
  where
    signed :
        (root signature : Bytes)
        → crypto.rsa_encrypt "here" root ≡ some signature
        → crypto.rsa_decrypt "here" root signature ≡ true
    signed root signature e =
        subst (λ s. same_bytes root s ≡ true) (some_inj e) (same_bytes_refl root)

-- Two blocks, made by one server.
abbrev bodies : List Block
bodies =
    record new_block { data_list = (7 ∷ []) ∷ []; metadata = (0 ∷ []) ∷ (7 ∷ []) ∷ (7 ∷ []) ∷ [] }
    ∷ record new_block { data_list = (8 ∷ []) ∷ []; metadata = (2 ∷ []) ∷ (8 ∷ []) ∷ (8 ∷ []) ∷ [] }
    ∷ []

run_blocks-Kept_example :
    (g : Generator) × (blocks : List Block) × (run_blocks crypto bodies
        (fresh_generator crypto shelf)
      ≡ some g)
    × Kept crypto g blocks
    × (map content blocks ≡ last_first bodies [])
unfolding metadata_at
run_blocks-Kept_example =
    run_blocks-Kept crypto shelf bodies (λ b. (zeros 32, refl)) (λ n. refl)
      ((refl, (0 ∷ [], 7 ∷ [], refl, refl)), ((refl, (2 ∷ [], 8 ∷ [], refl, refl)), tt))

-- The server has made one block, and starts again.
abbrev first_block : Block
first_block = record {
  number = 1;
  previous_hash = [];
  data_hash = zeros 32;
  data_list = (7 ∷ []) ∷ [];
  metadata = (0 ∷ []) ∷ (7 ∷ []) ∷ (7 ∷ []) ∷ [];
}

abbrev after_one : Generator
after_one = record {
  storage = record {
    disk = record shelf { files = (1, block_code.write first_block) ∷ []; block_num = 1 };
    buffered_epoch = 1;
  };
  previous_data_hash = zeros 32;
  verify_buffer = first_block ∷ [];
}

after_one-Kept : Kept crypto after_one (first_block ∷ [])
unfolding metadata_at neu_chain.Blocks.Headers.Linked neu_chain.Blocks.Headers.Stored
    neu_chain.HashMap.find
after_one-Kept = record {
  latest = refl;
  saved = refl;
  stored = (refl, tt);
  linked = (refl, refl, refl, tt);
  previous = refl;
  passed = refl;
}

run_block-restart_example :
    (load_block crypto 1 (restarted after_one.storage.disk).storage ≡ some first_block)
    × (run_block crypto new_block (restarted after_one.storage.disk) ≡ none)
run_block-restart_example =
    run_block-restart crypto after_one first_block [] [] first_block [] new_block after_one-Kept
      refl
