-- ===== src/Serial/Replay.antt =====
-- When transactions that all read from one view can be replayed from it in a given order, and
-- when the order of their writes does not matter.
use neu_chain.Prelude.{
  ◌≡◌, ◌≢◌, refl, sym, ◌∙◌, fun_ext, String, inl, inr, List, [], ◌∷◌, map, Key, same_key_refl,
  Key-cases, In-cases, update, All, Pairwise, In, arith,
}
use neu_chain.RwSet.{KvRead, KvWrite, read_key, write_key, read_keys, write_keys}
use neu_chain.Serial.{View, written, apply_writes, Entry, apply_all, ReadsFrom, Replays}

-- The second entry reads nothing that the first writes.
abbrev pub Unread : Entry → Entry → Type 0
Unread a b = (k : Key) → In k (write_keys a.1) → ¬ In k (read_keys b.1)

-- The two write no key in common.
abbrev pub Unshared : Entry → Entry → Type 0
Unshared a b = (k : Key) → In k (write_keys a.1) → ¬ In k (write_keys b.1)

update_ne : (v : View) (j k : Key) (x : String) → k ≢ j → update v j x k ≡ v k
update_ne v j k x h = elim (Key-cases j k) [ inl e ↦ absurd (h (sym e)) | inr e ↦ rw e ]

-- A key that is not written keeps its value.
pub apply_writes_ne :
    (ws : List KvWrite) (v : View) (k : Key) → ¬ In k (map write_key ws) → apply_writes ws v k ≡ v k
unfolding apply_writes
apply_writes_ne [] v k h = refl
apply_writes_ne (w ∷ ws) v k h =
    apply_writes_ne ws (update v (write_key w) (written w)) k (λ i. h (inr i))
    ∙ update_ne v (write_key w) k (written w) (λ e. h (inl e))

-- The value of a key after some writes depends on the value of that key alone.
apply_writes_cong :
    (ws : List KvWrite) (v u : View) (k : Key)
    → v k ≡ u k
    → apply_writes ws v k ≡ apply_writes ws u k
unfolding apply_writes
apply_writes_cong [] v u k h = h
apply_writes_cong (w ∷ ws) v u k h = apply_writes_cong ws _ _ k (ground arith)

-- A key that is written gets a value that does not depend on the view.
apply_writes-In :
    (ws : List KvWrite) (v u : View) (k : Key)
    → In k (map write_key ws)
    → apply_writes ws v k ≡ apply_writes ws u k
unfolding apply_writes
apply_writes-In [] v u k i = absurd i
apply_writes-In (w ∷ ws) v u k (inl e) =
    apply_writes_cong ws _ _ k (rw (e, same_key_refl (write_key w)))
apply_writes-In (w ∷ ws) v u k (inr i) = apply_writes-In ws _ _ k i

ReadsFrom-apply :
    (a b : Entry) (v : View)
    → Unread a b
    → ReadsFrom v b.1
    → ReadsFrom (apply_writes a.1.writes v) b.1
ReadsFrom-apply a b v h r = unchanged b.1.reads (λ k i j. h k j i) r
  where
    unchanged :
        (rs : List KvRead)
        → ((k : Key) → In k (map read_key rs) → ¬ In k (write_keys a.1))
        → All (λ r. v (read_key r) ≡ r.value) rs
        → All (λ r. apply_writes a.1.writes v (read_key r) ≡ r.value) rs
    unchanged [] f q = tt
    unchanged (x ∷ xs) f q = (
      apply_writes_ne a.1.writes v (read_key x) (f (read_key x) (inl refl)) ∙ q.0,
      unchanged xs (λ k i. f k (inr i)) q.1,
    )

-- If no entry reads what an earlier one of the list writes, the list can be replayed.
pub Replays-of_Unread :
    (es : List Entry) (v : View)
    → Pairwise Unread es
    → All (λ e. ReadsFrom v e.1) es
    → Replays es v (apply_all es v)
unfolding apply_all
Replays-of_Unread [] v h r = refl
Replays-of_Unread (e ∷ es) v h r =
    (r.0, Replays-of_Unread es (apply_writes e.1.writes v) h.1 (later es h.0 r.1))
  where
    later :
        (fs : List Entry)
        → All (Unread e) fs
        → All (λ f. ReadsFrom v f.1) fs
        → All (λ f. ReadsFrom (apply_writes e.1.writes v) f.1) fs
    later [] a b = tt
    later (f ∷ fs) a b = (ReadsFrom-apply e f v a.0 b.0, later fs a.1 b.1)

-- Two write sets with no key in common can be applied in either order.
pub apply_writes_comm :
    (a b : Entry) (v : View)
    → Unshared a b
    → apply_writes a.1.writes (apply_writes b.1.writes v)
      ≡ apply_writes b.1.writes (apply_writes a.1.writes v)
apply_writes_comm a b v h = fun_ext (λ k. at k)
  where
    at :
        (k : Key)
        → apply_writes a.1.writes (apply_writes b.1.writes v) k
          ≡ apply_writes b.1.writes (apply_writes a.1.writes v) k
    at k = elim (In-cases k (write_keys a.1)) [
      | inl i ↦ apply_writes-In a.1.writes _ v k i ∙ sym (apply_writes_ne b.1.writes _ k (h k i))
      | inr n ↦
          apply_writes_ne a.1.writes _ k n
          ∙ apply_writes_cong b.1.writes v _ k (sym (apply_writes_ne a.1.writes v k n))
    ]
