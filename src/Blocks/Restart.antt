-- ===== src/Blocks/Restart.antt =====
-- A server that starts again on the blocks that it has made.
use neu_chain.Prelude.{
  ℕ, suc, ◌≡◌, ◌≤◌, ◌<◌, refl, sym, ap, ◌∙◌, subst, false, Option, none, some, List, [], ◌∷◌, ◌++◌,
  ◌==◌, ltb, length, length-append, if_true, if_false, lt→ltb, bind-eq-some, arith,
}
use neu_chain.HashMap.{find}
use neu_chain.Transaction.Wire.{Bytes}
use neu_chain.ClientProxy.{same_bytes}
use neu_chain.Blocks.{Block, Crypto, Disk, BlockStorage, open_storage, load_block}
use neu_chain.Blocks.Generator.{
  Generator, metadata_at, hash_metadata, generate_block_header, run_block,
}
use neu_chain.Blocks.Headers.{Kept, Linked, Stored, load_block-found}

abbrev pub restarted : Disk → Generator
restarted disk = record {
  storage = open_storage false disk;
  previous_data_hash = [];
  verify_buffer = [];
}

module _ (c : Crypto) where
  not_empty : (d : Bytes) → length d ≡ 32 → same_bytes d [] ≡ false
  unfolding same_bytes
  not_empty [] h = ground arith
  not_empty (x ∷ d) h = refl

  header_size : (b : Block) → hash_metadata c b ≡ some b.data_hash → length b.data_hash ≡ 32
  header_size b e =
      let (results, at0, e1) = bind-eq-some (metadata_at 0 b.metadata) _ e in
      let (root, at1, e2) = bind-eq-some (metadata_at 1 b.metadata) _ e1 in
      c.coding.hash-length _ b.data_hash e2

  no_header :
      (s : BlockStorage) (b body : Block)
      → 0 < s.buffered_epoch
      → load_block c s.buffered_epoch s ≡ some b
      → length b.data_hash ≡ 32
      → generate_block_header c [] s body ≡ none
  unfolding generate_block_header
  no_header s b body h loaded size = go (hash_metadata c body) refl
    where
      go : (o : Option Bytes) → hash_metadata c body ≡ o → generate_block_header c [] s body ≡ none
      go none e = rw (generate_block_header, e) refl
      go (some d) e =
          rw (generate_block_header, e)
            (if_true (ltb 0 s.buffered_epoch) _ _ (lt→ltb 0 s.buffered_epoch h)
              ∙ rw loaded (if_false (same_bytes b.data_hash []) _ _ (not_empty b.data_hash size)))

  Stored-at :
      (files : List (ℕ × Bytes)) (before : List Block) (x : Block) (after bs : List Block)
      → Stored c files bs
      → bs ≡ before ++ x ∷ after
      → find ◌==◌ (suc (length after)) files ≡ some (c.serialize_block x)
  unfolding Stored
  Stored-at files [] x after bs k e = (subst (Stored c files) e k).0
  Stored-at files (y ∷ before) x after bs k e =
      Stored-at files before x after (before ++ x ∷ after) (subst (Stored c files) e k).1 refl

  -- A server that starts again without a reset still has all of its blocks, each under its number,
  -- but makes no more: whatever the next body is, a check stops it, since the hash of the last
  -- block, which it compares, was kept in memory only.
  pub run_block-restart :
      (g : Generator) (b : Block) (l before : List Block) (x : Block) (after : List Block)
      (body : Block)
      → Kept c g (b ∷ l)
      → b ∷ l ≡ before ++ x ∷ after
      → (load_block c (suc (length after)) (restarted g.storage.disk).storage ≡ some x)
        × (run_block c body (restarted g.storage.disk) ≡ none)
  unfolding run_block Linked Stored
  run_block-restart g b l before x after body k e =
      let s : BlockStorage = open_storage false g.storage.disk in
      let loaded : load_block c s.buffered_epoch s ≡ some b =
        subst (λ n. load_block c n s ≡ some b) (sym k.saved)
          (load_block-found c (suc (length l)) s b (omega (arith, k.saved)) k.stored.0) in
      let (_, hashed, _, _) = k.linked in
      let saved : suc (length after) ≤ g.storage.disk.block_num =
        omega (arith, k.saved, ap length e, length-append before (x ∷ after)) in
      (
        load_block-found c (suc (length after)) s x saved
            (Stored-at g.storage.disk.files before x after (b ∷ l) k.stored e),
        rw (run_block, no_header s b body (omega (arith, k.saved)) loaded (header_size b hashed))
            refl,
      )
