-- ===== src/Blocks/Agreement.antt =====
-- Servers that have the same transactions make the same block, and accept each other's signature.
use mathlib.Core.List.{Permᴰ}
use neu_chain.Prelude.{
  ℕ, ◌≡◌, sym, ap, ◌∙◌, subst, String, true, false, some, List, [], ◌∷◌, map, bind-eq-some,
  some_inj, if_true,
}
use neu_chain.Transaction.{Transaction}
use neu_chain.Transaction.Wire.{Bytes}
use neu_chain.ClientProxy.{same_bytes}
use neu_chain.ClientProxy.Proofs.{same_bytes_refl}
use neu_chain.Blocks.{Block, new_block, Crypto, BlockStorage, load_block}
use neu_chain.Blocks.Generator.{
  PartialBlocks, serialize_all, results_of, generate_block_body, metadata_at, signature_validate,
  pending_queue, signature_exchange, signature_verify_callback, deserialize_block,
}
use neu_chain.Blocks.Order.{DistinctIds, pending_queue-Permᴰ}

module _ (c : Crypto) where
  open c use {leaf_hash, merkle_root, rsa_encrypt, rsa_decrypt}

  -- What a body is made of.
  abbrev pub Body : String → List Transaction → Block → Type 0
  Body ip queue b =
      (raws : List Bytes) × (root : Bytes) × (signature : Bytes) × (serialize_all c queue
        ≡ some raws)
      × (merkle_root (map leaf_hash raws) ≡ some root)
      × (rsa_encrypt ip root ≡ some signature)
      × (b ≡ record new_block {
        data_list = raws;
        metadata = results_of c queue ∷ root ∷ signature ∷ [];
      })

  pub generate_block_body-Body :
      (ip : String) (epoch : ℕ) (queue : List Transaction) (p p' : PartialBlocks) (b : Block)
      → generate_block_body c ip epoch queue p ≡ some (b, p')
      → Body ip queue b
  unfolding generate_block_body
  generate_block_body-Body ip epoch queue p p' b e =
      let (raws, e1, h1) = bind-eq-some (serialize_all c queue) _ e in
      let (root, e2, h2) = bind-eq-some (merkle_root (map leaf_hash raws)) _ h1 in
      let (signature, e3, h3) = bind-eq-some (rsa_encrypt ip root) _ h2 in
      (raws, root, signature, e1, e2, e3, sym (ap (λ x. x.0) (some_inj h3)))

  abbrev pub with_header : ℕ → Bytes × Bytes → Block → Block
  with_header n h b = record b { number = n; previous_hash = h.0; data_hash = h.1 }

  -- One block, signed by two servers.
  accepted :
      (ip ip' : String) (n : ℕ) (h : Bytes × Bytes) (raws : List Bytes)
      (results root signature signature' : Bytes) (s : BlockStorage)
      → merkle_root (map leaf_hash raws) ≡ some root
      → rsa_decrypt ip root signature ≡ true
      → (let b = record new_block {
        data_list = raws;
        metadata = results ∷ root ∷ signature' ∷ [];
      } in
          load_block c n s ≡ some (with_header n h b)
          → (signature_verify_callback c ip' ip (n, signature) s ≡ some true)
            × (signature_validate c false ip signature b ≡ some true))
  unfolding signature_verify_callback deserialize_block signature_validate metadata_at
  accepted ip ip' n h raws results root signature signature' s rooted good loaded = (
    rw (signature_verify_callback, deserialize_block, loaded)
        (if_true (rsa_decrypt ip root signature) _ _ good),
    rw (signature_validate, metadata_at, rooted)
        (if_true (same_bytes root root) _ _ (same_bytes_refl root)
          ∙ if_true (rsa_decrypt ip root signature) _ _ good),
  )

  -- Two servers that have the same transactions in an epoch, with different ids, in whatever order
  -- they were added, make blocks with the same data, the same results and the same root. So where a
  -- signature that a server makes is accepted as its own, each server accepts the signature that the
  -- other sends of the block, once it has stored its own block with any header, and finds the root
  -- to be that of its own data.
  pub generate_block_body-agrees :
      (ip ip' : String) (epoch n : ℕ) (ts us : List Transaction) (p p1 q q1 : PartialBlocks)
      (b b' : Block) (h h' : Bytes × Bytes) (s : BlockStorage)
      → Permᴰ ts us
      → DistinctIds ts
      → generate_block_body c ip epoch (pending_queue ts) p ≡ some (b, p1)
      → generate_block_body c ip' epoch (pending_queue us) q ≡ some (b', q1)
      → ((root signature : Bytes)
          → rsa_encrypt ip root ≡ some signature
          → rsa_decrypt ip root signature ≡ true)
      → load_block c n s ≡ some (with_header n h' b')
      → (signature : Bytes) × (signature_exchange c (with_header n h b) ≡ some (n, signature))
        × (signature_verify_callback c ip' ip (n, signature) s ≡ some true)
        × (signature_validate c false ip signature b' ≡ some true)
        × (b'.data_list ≡ b.data_list)
        × (metadata_at 0 b'.metadata ≡ metadata_at 0 b.metadata)
        × (metadata_at 1 b'.metadata ≡ metadata_at 1 b.metadata)
  unfolding signature_exchange metadata_at
  generate_block_body-agrees ip ip' epoch n ts us p p1 q q1 b b' h h' s perm ids made made' own
        loaded =
      let (raws, root, signature, e1, e2, e3, eb) =
        generate_block_body-Body ip epoch (pending_queue ts) p p1 b made in
      let same = pending_queue-Permᴰ perm ids in
      let (raws', root', signature', f1, f2, f3, fb) =
        subst (λ queue. Body ip' queue b') (sym same)
          (generate_block_body-Body ip' epoch (pending_queue us) q q1 b' made') in
      let raws_eq = some_inj (sym f1 ∙ e1) in
      let root_eq = some_inj (sym f2 ∙ ap (λ l. merkle_root (map leaf_hash l)) raws_eq ∙ e2) in
      let fb' : b' ≡ record new_block {
        data_list = raws;
        metadata = results_of c (pending_queue ts) ∷ root ∷ signature' ∷ [];
      } =
        fb
        ∙ ap
            (λ (x : List Bytes × Bytes). record new_block {
              data_list = x.0;
              metadata = results_of c (pending_queue ts) ∷ x.1 ∷ signature' ∷ [];
            })
            (λ i. (raws_eq i, root_eq i)) in
      let (called, checked) =
        accepted ip ip' n h' raws (results_of c (pending_queue ts)) root signature signature' s e2
          (own root signature e3)
          (subst (λ x. load_block c n s ≡ some (with_header n h' x)) fb' loaded) in
      (
        signature,
        ap (λ x. signature_exchange c (with_header n h x)) eb,
        called,
        subst (λ x. signature_validate c false ip signature x ≡ some true) (sym fb') checked,
        ap (λ (x : Block). x.data_list) fb' ∙ sym (ap (λ (x : Block). x.data_list) eb),
        ap (λ (x : Block). metadata_at 0 x.metadata) fb'
            ∙ sym (ap (λ (x : Block). metadata_at 0 x.metadata) eb),
        ap (λ (x : Block). metadata_at 1 x.metadata) fb'
            ∙ sym (ap (λ (x : Block). metadata_at 1 x.metadata) eb),
      )
