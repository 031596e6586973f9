-- ===== src/Blocks/Headers.antt =====
-- The header of a block, and how the block is written and read back.
use neu_chain.Prelude.{
  ℕ, suc, ◌+◌, ◌≡◌, ◌<◌, ◌≤◌, refl, sym, ap, ◌∙◌, subst, true, false, some, List, [], ◌∷◌, ◌==◌,
  ==_iff, ltb, length, if_true, if_false, lt→ltb, arith,
}
use neu_chain.HashMap.{find, put}
use neu_chain.HashMap.Refines.{find-put}
use neu_chain.Transaction.Wire.{Bytes}
use neu_chain.ClientProxy.{same_bytes}
use neu_chain.ClientProxy.Proofs.{same_bytes_refl}
use neu_chain.Blocks.{Block, Crypto, BlockStorage, insert_block, append_block, load_block}
use neu_chain.Blocks.Generator.{Generator, metadata_at, hash_metadata, generate_block_header}

-- The blocks, the last one first.
abbrev pub last_hash : List Block → Bytes
last_hash [] = []
last_hash (b ∷ l) = b.data_hash

module _ (c : Crypto) where
  open c use {serialize_block, parse_block, parse_block-serialize}

  -- The blocks are numbered from 1 and linked by their hashes.
  unfoldable pub Linked : List Block → Type 0
  Linked [] = Unit
  Linked (b ∷ l) =
      (b.number ≡ suc (length l))
      × (hash_metadata c b ≡ some b.data_hash)
      × (b.previous_hash ≡ last_hash l)
      × Linked l

  unfoldable pub Stored : List (ℕ × Bytes) → List Block → Type 0
  Stored files [] = Unit
  Stored files (b ∷ l) =
      (find ◌==◌ (suc (length l)) files ≡ some (serialize_block b)) × Stored files l

  pub record Kept (g : Generator) (bs : List Block) : Type 0 where
    pub latest : g.storage.buffered_epoch ≡ length bs
    pub saved : g.storage.disk.block_num ≡ length bs
    pub stored : Stored g.storage.disk.files bs
    pub linked : Linked bs
    pub previous : g.previous_data_hash ≡ last_hash bs
    pub passed : g.verify_buffer ≡ bs

  -- The results and the root of a body.
  abbrev pub HasRoot : Block → Type 0
  HasRoot b =
      (results : Bytes) × (root : Bytes) × (metadata_at 0 b.metadata ≡ some results)
      × (metadata_at 1 b.metadata ≡ some root)

  pub load_block-found :
      (n : ℕ) (s : BlockStorage) (b : Block)
      → n ≤ s.buffered_epoch
      → find ◌==◌ n s.disk.files ≡ some (serialize_block b)
      → load_block c n s ≡ some b
  unfolding load_block
  load_block-found n s b h e =
      if_false (ltb s.buffered_epoch n) _ _ (not_later n s.buffered_epoch h)
      ∙ rw e (parse_block-serialize b)
    where
      not_later : (n k : ℕ) → n ≤ k → ltb k n ≡ false
      not_later n k h = ground arith

  header-first :
      (previous d : Bytes) (s : BlockStorage) (b : Block)
      → s.buffered_epoch ≡ 0
      → hash_metadata c b ≡ some d
      → generate_block_header c previous s b ≡ some (record b { data_hash = d; number = 1 }, d)
  unfolding generate_block_header
  header-first previous d s b e hashed = rw (generate_block_header, hashed) (rw e refl)

  header-next :
      (previous d : Bytes) (s : BlockStorage) (b b0 : Block)
      → 0 < s.buffered_epoch
      → load_block c s.buffered_epoch s ≡ some b0
      → b0.data_hash ≡ previous
      → hash_metadata c b ≡ some d
      → generate_block_header c previous s b
        ≡ some
            (record b { data_hash = d; number = s.buffered_epoch + 1; previous_hash = previous }, d)
  unfolding generate_block_header
  header-next previous d s b b0 h loaded same hashed =
      rw (generate_block_header, hashed)
        (if_true (ltb 0 s.buffered_epoch) _ _ (lt→ltb 0 s.buffered_epoch h)
          ∙ rw loaded (
              if_true (same_bytes b0.data_hash previous) _ _ (
                subst (λ x. same_bytes b0.data_hash x ≡ true) same (same_bytes_refl b0.data_hash))))

  -- The block with its header.
  unfoldable pub header_of : (bs : List Block) → Bytes → Block → Block
  header_of bs d body = record body {
    data_hash = d;
    number = suc (length bs);
    previous_hash = last_hash bs;
  }

  pub header-Kept :
      (bs : List Block) (g : Generator) (body : Block) (d : Bytes)
      → body.previous_hash ≡ []
      → Kept g bs
      → hash_metadata c body ≡ some d
      → generate_block_header c g.previous_data_hash g.storage body ≡ some (header_of bs d body, d)
  unfolding header_of Stored
  header-Kept [] g body d bare k hashed =
      header-first g.previous_data_hash d g.storage body k.latest hashed
      ∙ ap (λ x. some (record body { data_hash = d; number = 1; previous_hash = x }, d)) bare
  header-Kept (b0 ∷ l) g body d bare k hashed =
      let number : g.storage.buffered_epoch + 1 ≡ suc (suc (length l)) = omega (arith, k.latest) in
      header-next g.previous_data_hash d g.storage body b0 (omega (arith, k.latest))
        (subst (λ n. load_block c n g.storage ≡ some b0) (sym k.latest)
          (load_block-found (suc (length l)) g.storage b0 (omega (arith, k.latest)) k.stored.0))
        (sym k.previous) hashed
      ∙ ap
          (λ (x : ℕ × Bytes).
            some (record body { data_hash = d; number = x.0; previous_hash = x.1 }, d))
          (λ i. (number i, k.previous i))

  pub Stored-put :
      (m : ℕ) (raw : Bytes) (files : List (ℕ × Bytes)) (l : List Block)
      → length l ≤ m
      → Stored files l
      → Stored (put ◌==◌ (suc m) raw files) l
  unfolding Stored
  Stored-put m raw files [] h k = tt
  Stored-put m raw files (b ∷ l) h (at, rest) = (
    find-put ◌==◌ ==_iff (suc m) (suc (length l)) raw files
        ∙ if_false (suc m == suc (length l)) _ _ (other m (length l) h)
        ∙ at,
    Stored-put m raw files l (omega arith) rest,
  )
    where
      other : (m n : ℕ) → suc n ≤ m → (suc m == suc n) ≡ false
      other m n h = ground arith

  unfoldable pub appended : Block → BlockStorage → BlockStorage
  appended b s = record {
    disk = record s.disk {
      files = put ◌==◌ b.number (serialize_block b) s.disk.files;
      block_num = b.number;
    };
    buffered_epoch = b.number;
  }

  pub append_block-written :
      (b : Block) (s : BlockStorage)
      → s.disk.writable b.number ≡ true
      → append_block c b s ≡ some (appended b s)
  unfolding insert_block appended
  append_block-written b s h = rw (append_block, insert_block, h) refl
