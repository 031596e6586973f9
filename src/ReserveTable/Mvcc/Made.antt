-- ===== src/ReserveTable/Mvcc/Made.antt =====
-- Which registers a reservation makes: those of the keys that it claims.
use neu_chain.Prelude.{
  ℕ, ◌≡◌, refl, sym, ap, ◌∙◌, inl, inr, none, List, [], ◌∷◌, map, String, Key, same_key,
  same_key_refl, same_key_ne, In, Bool-cases, if_true, if_false,
}
use neu_chain.RwSet.{KvRead, KvWrite, read_key, write_key}
use neu_chain.ReserveTable.Mvcc.{
  Registers, get_register, reserve_version, reserve_read_versions, reserve_write_versions,
}
use neu_chain.ReserveTable.Mvcc.Registers.{get-reserve_version}
use neu_chain.ReserveTable.Mvcc.Agrees.{HasRegister}

module _ (hash : String → ℕ) where
  -- The two loops of a reservation, over the keys alone.
  pub reserve_versions : ℕ → List Key → Registers → Registers
  reserve_versions tid [] t = t
  reserve_versions tid (k ∷ ks) t = reserve_versions tid ks (reserve_version hash tid k t)

  pub reserve_read_versions-keys :
      (tid : ℕ) (rs : List KvRead) (t : Registers)
      → reserve_read_versions hash tid rs t ≡ reserve_versions tid (map read_key rs) t
  unfolding reserve_read_versions reserve_versions
  reserve_read_versions-keys tid [] t = refl
  reserve_read_versions-keys tid (r ∷ rs) t =
      reserve_read_versions-keys tid rs (reserve_version hash tid (read_key r) t)

  pub reserve_write_versions-keys :
      (tid : ℕ) (ws : List KvWrite) (t : Registers)
      → reserve_write_versions hash tid ws t ≡ reserve_versions tid (map write_key ws) t
  unfolding reserve_write_versions reserve_versions
  reserve_write_versions-keys tid [] t = refl
  reserve_write_versions-keys tid (w ∷ ws) t =
      reserve_write_versions-keys tid ws (reserve_version hash tid (write_key w) t)

  pub made-kept :
      (j : Key) (tid : ℕ) (ks : List Key) (t : Registers)
      → HasRegister hash t j
      → HasRegister hash (reserve_versions tid ks t) j
  unfolding reserve_versions
  made-kept j tid [] t h = h
  made-kept j tid (k ∷ ks) t h =
      made-kept j tid ks (reserve_version hash tid k t) (elim (Bool-cases (same_key k j)) [
        | inl e ↦ (_, get-reserve_version hash j k tid t ∙ if_true (same_key k j) _ _ e)
        | inr e ↦ (h.0, get-reserve_version hash j k tid t ∙ if_false (same_key k j) _ _ e ∙ h.1)
      ])

  pub made-claimed :
      (j : Key) (tid : ℕ) (ks : List Key) (t : Registers)
      → In j ks
      → HasRegister hash (reserve_versions tid ks t) j
  unfolding reserve_versions
  made-claimed j tid (k ∷ ks) t (inr i) = made-claimed j tid ks (reserve_version hash tid k t) i
  made-claimed j tid (k ∷ ks) t (inl e) = made-kept j tid ks (reserve_version hash tid k t) (
    _,
    get-reserve_version hash j k tid t
        ∙ if_true (same_key k j) _ _ (ap (same_key k) e ∙ same_key_refl k),
  )
  made-claimed j tid [] t i = absurd i

  pub never_made :
      (j : Key) (tid : ℕ) (ks : List Key) (t : Registers)
      → get_register hash j t ≡ none
      → ¬ In j ks
      → get_register hash j (reserve_versions tid ks t) ≡ none
  unfolding reserve_versions
  never_made j tid [] t h n = h
  never_made j tid (k ∷ ks) t h n =
      never_made j tid ks (reserve_version hash tid k t)
        (get-reserve_version hash j k tid t
          ∙ if_false (same_key k j) _ _ (same_key_ne k j (λ e. n (inl (sym e))))
          ∙ h)
        (λ i. n (inr i))
