-- ===== src/ReserveTable/Exchange.antt =====
-- The loop on a register as it runs: any number of threads, each between its load, its test and
-- its compare-and-exchange (lines 12-18 of
-- src/block_server/reserve_table/mock/mock_reserve_table.cpp), in any interleaving.
pub mod Invariant
pub mod Result
use neu_chain.Prelude.{
  ℕ, ◌≤◌, ◌≡◌, ◌≢◌, refl, sym, ap, ◌∙◌, subst, ◌⊎◌, inl, inr, List, [], ◌∷◌, ◌++◌, map, true, false,
  All, All-map_lem, All-In, In, arith,
}
use neu_chain.ReserveTable.{keeps}

pub data Place : Type 0 where
  starting : Place
  holding : ℕ → Place
  finished : Place

pub record Thread : Type 0 where
  pub tid : ℕ
  pub place : Place

pub record Shared : Type 0 where
  pub register : ℕ
  pub threads : List Thread

-- What one thread does: the load, the `break`, the exchange, and an exchange that fails and loads
-- again. A weak exchange may fail at any time.
pub data Act (r : ℕ) (a : Thread) (r' : ℕ) (b : Thread) : Type 0 where
  load : a.place ≡ starting → r' ≡ r → b.place ≡ holding r → Act r a r' b
  keep :
      (old : ℕ)
      → a.place ≡ holding old
      → keeps a.tid old ≡ true
      → r' ≡ r
      → b.place ≡ finished
      → Act r a r' b
  exchange :
      (old : ℕ)
      → a.place ≡ holding old
      → keeps a.tid old ≡ false
      → r ≡ old
      → r' ≡ a.tid
      → b.place ≡ finished
      → Act r a r' b
  retry :
      (old : ℕ)
      → a.place ≡ holding old
      → keeps a.tid old ≡ false
      → r' ≡ r
      → b.place ≡ holding r
      → Act r a r' b

-- One of the threads acts.
pub data Step (s u : Shared) : Type 0 where
  acts :
      (before after : List Thread) (a b : Thread)
      → s.threads ≡ before ++ a ∷ after
      → u.threads ≡ before ++ b ∷ after
      → b.tid ≡ a.tid
      → Act s.register a u.register b
      → Step s u

pub data Reach (s : Shared) : Shared → Type 0 where
  here : Reach s s
  next : {t u : Shared} → Reach s t → Step t u → Reach s u

-- One thread for each id, none of which has begun.
unfoldable pub begin : ℕ → List ℕ → Shared
begin r tids = record {
  register = r;
  threads = map (λ n. record { tid = n; place = starting }) tids;
}
