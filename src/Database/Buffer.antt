-- ===== src/Database/Buffer.antt =====
-- What buffering a write set leaves in the buffers of the database.
use neu_chain.Prelude.{ℕ, ◌≡◌, ◌≢◌, false, some, none, List, [], ◌==◌, if◌then◌else◌, arith}
use neu_chain.RwSet.{KvRwSet}
use neu_chain.Storage.{DbStorage}
use neu_chain.Database.{TableDefinition, Database, buffer_updates}

module _ (s : DbStorage) where
  -- Two databases have the same buffers for an id.
  abbrev pub SameBuffers : Database s → Database s → ℕ → Type 0
  SameBuffers d d' k =
      (d'.rw_set_buffer k ≡ d.rw_set_buffer k) × (d'.table_list_buffer k ≡ d.table_list_buffer k)

  pub record Buffers (tid : ℕ) (set : KvRwSet) (ts : List TableDefinition) (d d' : Database s)
      : Type 0 where
    pub stored : d'.storage ≡ d.storage
    pub open_phase : d'.commit_phase ≡ false
    pub sets :
        (k : ℕ)
        → d'.rw_set_buffer k
          ≡ (if tid == k then some set else if d.commit_phase then none else d.rw_set_buffer k)
    pub tables :
        (k : ℕ)
        → d'.table_list_buffer k
          ≡ (if tid == k then ts else if d.commit_phase then [] else d.table_list_buffer k)

  -- Buffering a set makes it the entry of its id, and leaves the storage. Within an epoch it keeps
  -- the entries of all other ids; the first call after a commit or an abort drops them and leaves
  -- the commit phase.
  pub buffer_updates-Buffers :
      (tid : ℕ) (set : KvRwSet) (ts : List TableDefinition) (d : Database s)
      → Buffers tid set ts d (buffer_updates s tid set ts d)
  unfolding buffer_updates
  buffer_updates-Buffers tid set ts d = record {
    stored = ground arith;
    open_phase = ground arith;
    sets = λ k. ground arith;
    tables = λ k. ground arith;
  }

  -- What follows for the entry itself, and within an epoch for all others.
  pub Buffers-own :
      (tid : ℕ) (set : KvRwSet) (ts : List TableDefinition) (d d' : Database s)
      → Buffers tid set ts d d'
      → (d'.rw_set_buffer tid ≡ some set) × (d'.table_list_buffer tid ≡ ts)
  Buffers-own tid set ts d d' b = ground (arith, b.sets tid, b.tables tid)

  pub Buffers-kept :
      (tid : ℕ) (set : KvRwSet) (ts : List TableDefinition) (d d' : Database s) (k : ℕ)
      → Buffers tid set ts d d'
      → d.commit_phase ≡ false
      → k ≢ tid
      → SameBuffers d d' k
  Buffers-kept tid set ts d d' k b p ne = ground (arith, b.sets k, b.tables k)
