-- ===== src/Blocks/Chain.antt =====
-- The blocks that a server makes one after the other: each has its number, the hash of its results
-- and its root, and the hash of the one before, and is read back.
use neu_chain.Prelude.{
  ℕ, suc, ◌≡◌, refl, ap, ◌∙◌, true, some, List, [], ◌∷◌, ◌++◌, ◌==◌, ==_iff, length, All, if_true,
  map, arith,
}
use neu_chain.HashMap.Refines.{find-put}
use neu_chain.Transaction.Wire.{Bytes}
use neu_chain.Blocks.{Block, Crypto, Disk, open_storage}
use neu_chain.Blocks.Generator.{Generator, hash_metadata, run_block, run_blocks}
use neu_chain.Blocks.Headers.{
  Linked, Stored, Kept, HasRoot, header_of, header-Kept, Stored-put, appended, append_block-written,
}

abbrev pub content : Block → List Bytes × List Bytes
content b = (b.data_list, b.metadata)

-- What the bodies carry, the last one first, before what there was.
unfoldable pub last_first :
    List Block → List (List Bytes × List Bytes) → List (List Bytes × List Bytes)
last_first [] acc = acc
last_first (b ∷ l) acc = last_first l (content b ∷ acc)

module _ (c : Crypto) where
  open c use {serialize_block}

  record Step (g : Generator) (bs : List Block) (body : Block) : Type 0 where
    next : Generator
    made : Block
    runs : run_block c body g ≡ some next
    kept : Kept c next (made ∷ bs)
    same_data : made.data_list ≡ body.data_list
    same_metadata : made.metadata ≡ body.metadata
    same_disk : next.storage.disk.writable ≡ g.storage.disk.writable

  run_block-Step :
      ((x : Bytes) → (d : Bytes) × (c.coding.hash x ≡ some d))
      → (bs : List Block) (g : Generator) (body : Block)
      → ((n : ℕ) → g.storage.disk.writable n ≡ true)
      → body.previous_hash ≡ []
      → HasRoot c body
      → Kept c g bs
      → Step g bs body
  unfolding run_block header_of appended Stored Linked
  run_block-Step hashes bs g body writable bare (results, root, at0, at1) k =
      let (d, digested) = hashes (results ++ root) in
      let hashed : hash_metadata c body ≡ some d = rw (hash_metadata, at0) (rw at1 digested) in
      let b : Block = header_of c bs d body in
      let header = header-Kept c bs g body d bare k hashed in
      let written = append_block-written c b g.storage (writable b.number) in
      record {
        next = record {
          storage = appended c b g.storage;
          previous_data_hash = d;
          verify_buffer = b ∷ g.verify_buffer;
        };
        made = b;
        runs = rw (run_block, header) (rw written refl);
        kept = record {
          latest = refl;
          saved = refl;
          stored = (
            find-put ◌==◌ ==_iff (suc (length bs)) (suc (length bs)) (serialize_block b)
                  g.storage.disk.files
                ∙ if_true (suc (length bs) == suc (length bs)) _ _
                    ((==_iff (suc (length bs)) (suc (length bs))).1 refl),
            Stored-put c (length bs) (serialize_block b) g.storage.disk.files bs (omega arith)
                k.stored,
          );
          linked = (refl, hashed, refl, k.linked);
          previous = refl;
          passed = ap (λ l. b ∷ l) k.passed;
        };
        same_data = refl;
        same_metadata = refl;
        same_disk = refl;
      }

  -- Bodies that the workers have made.
  abbrev pub IsBody : Block → Type 0
  IsBody b = (b.previous_hash ≡ []) × HasRoot c b

  -- What the loop leaves, if it has started from these blocks.
  Made : Generator → List Block → List Block → Type 0
  Made g bs bodies =
      (final : Generator) × (blocks : List Block) × (run_blocks c bodies g ≡ some final)
      × Kept c final blocks
      × (map content blocks ≡ last_first bodies (map content bs))

  run_blocks-Made :
      ((x : Bytes) → (d : Bytes) × (c.coding.hash x ≡ some d))
      → (bodies bs : List Block) (g : Generator) → ((n : ℕ) → g.storage.disk.writable n ≡ true)
      → All IsBody bodies
      → Kept c g bs
      → Made g bs bodies
  unfolding run_blocks Made last_first
  run_blocks-Made hashes [] bs g writable h k = (g, bs, refl, k, refl)
  run_blocks-Made hashes (body ∷ bodies) bs g writable ((bare, rooted), h) k =
      let st = run_block-Step hashes bs g body writable bare rooted k in
      let (final, blocks, ran, kept, contents) =
        run_blocks-Made hashes bodies (st.made ∷ bs) st.next
          (λ n. ap (λ f. f n) st.same_disk ∙ writable n) h st.kept in
      (
        final,
        blocks,
        rw (run_blocks, st.runs) ran,
        kept,
        contents
            ∙ ap (λ x. last_first bodies (x ∷ map content bs))
                (λ i. (st.same_data i, st.same_metadata i)),
      )

  abbrev pub fresh_generator : Disk → Generator
  fresh_generator disk = record {
    storage = open_storage true disk;
    previous_data_hash = [];
    verify_buffer = [];
  }

  -- From a storage that is reset, on a disk that takes every file, and with a hash function that
  -- does not fail, no check stops the generator at any bodies that have their results and their
  -- root: it makes one block of each, in their order. The blocks are numbered from 1, each has the
  -- hash of its results and its root and that of the block before, and all have been stored and
  -- passed on to be signed.
  pub run_blocks-Kept :
      (disk : Disk) (bodies : List Block)
      → ((x : Bytes) → (d : Bytes) × (c.coding.hash x ≡ some d))
      → ((n : ℕ) → disk.writable n ≡ true)
      → All IsBody bodies
      → (g : Generator) × (blocks : List Block) × (run_blocks c bodies (fresh_generator disk)
          ≡ some g)
        × Kept c g blocks
        × (map content blocks ≡ last_first bodies [])
  unfolding Made Stored Linked
  run_blocks-Kept disk bodies hashes writable h =
      run_blocks-Made hashes bodies [] (fresh_generator disk) writable h (record {
        latest = refl;
        saved = refl;
        stored = tt;
        linked = tt;
        previous = refl;
        passed = refl;
      })
