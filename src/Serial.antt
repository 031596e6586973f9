-- ===== src/Serial.antt =====
-- The specification of an epoch: the view of the stored values, the effect of a write set on it,
-- and what it means to run transactions one after another.
pub mod Order
pub mod Replay
pub mod Conflicts
pub mod Progress
use neu_chain.Prelude.{ℕ, ◌≡◌, String, List, [], ◌∷◌, if◌then◌else◌, Key, update, All}
use neu_chain.RwSet.{KvRead, KvWrite, KvRwSet, read_key, write_key}

-- The value of each key; a key that is not stored reads as the empty text.
abbrev pub View : Type 0
View = Key → String

-- A deleted key reads as the empty text again.
abbrev pub written : KvWrite → String
written w = if w.is_delete then "" else w.value

unfoldable pub apply_writes : List KvWrite → View → View
apply_writes [] v = v
apply_writes (w ∷ ws) v = apply_writes ws (update v (write_key w) (written w))

-- A transaction's id, with what it read and writes.
abbrev pub Entry : Type 0
Entry = ℕ × KvRwSet

unfoldable pub apply_all : List Entry → View → View
apply_all [] v = v
apply_all (e ∷ es) v = apply_all es (apply_writes e.1.writes v)

-- Each recorded read is the view's value.
abbrev pub ReadsFrom : View → KvRwSet → Type 0
ReadsFrom v s = All (λ r. v (read_key r) ≡ r.value) s.reads

-- One after another from the first view to the second: each transaction reads, in the view that
-- those before it have left, the very values that it has recorded.
abbrev pub Replays : List Entry → View → View → Type 0
Replays [] v w = v ≡ w
Replays (e ∷ es) v w = ReadsFrom v e.1 × Replays es (apply_writes e.1.writes v) w
