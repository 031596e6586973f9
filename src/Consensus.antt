-- ===== src/Consensus.antt =====
-- Which block servers take part in an epoch: `ConsensusControlBlock`,
-- include/block_server/comm/client_proxy/consensus_control_block.h. Servers confirm epochs and vote
-- against servers that they find malicious; the messages come in one order from raft, which is not
-- modelled, and the clock is an argument.
pub mod Members
pub mod Invariant
pub mod Steps
pub mod Receive
pub mod Total
pub mod Quorum
use neu_chain.Prelude.{
  ℕ, zero, suc, ◌+◌, ◌-◌, ◌*◌, ◌/◌, ◌^◌, String, Bool, true, false, not, Option, none, some, List,
  [], ◌∷◌, ◌==◌, ltb, leb, str_eq, length, if◌then◌else◌,
}
use neu_chain.HashMap.{find, put}
use neu_chain.HashMap.Refines.{value_or}
use neu_chain.Orm.{push, has_key}

-- `MAX_EPOCH`, include/common/compile_config.h.
abbrev pub max_epoch : ℕ
max_epoch = 10000

pub record ProxyBlock : Type 0 where
  pub latest_epoch : ℕ
  pub last_heartbeat : ℕ
  pub is_valid : Bool
  pub epoch_voters : ℕ → List String
  pub first_invalid_epoch : ℕ

abbrev pub new_proxy_block : ProxyBlock
new_proxy_block = record {
  latest_epoch = 0;
  last_heartbeat = 0;
  is_valid = true;
  epoch_voters = λ e. [];
  first_invalid_epoch = 0;
}

-- `comm::TransactionsWithProof`, the fields that are read here.
pub data ProofType : Type 0 where
  tx con heartbeat malicious : ProofType

pub record ProofSet : Type 0 where
  pub epoch : ℕ
  pub type : ProofType
  pub proof : String
  pub ip : String

-- `malicious_signals` are the calls of the handler, the last one first.
pub record ControlBlock : Type 0 where
  pub start : Bool
  pub total_server_count : ℕ
  pub epoch_approve_map : ℕ → List String
  pub epoch_stale_bit : ℕ → Bool
  pub malicious_signals : List (String × ℕ)
  pub proxies_timeout : List (String × ProxyBlock)

abbrev pub new_control_block : ControlBlock
new_control_block = record {
  start = false;
  total_server_count = 0;
  epoch_approve_map = λ e. [];
  epoch_stale_bit = λ e. false;
  malicious_signals = [];
  proxies_timeout = [];
}

-- A failed `CHECK` leaves no state.
abbrev pub set_consensus_count : ℕ → ControlBlock → Option ControlBlock
set_consensus_count n s = if s.start then none else some (record s { total_server_count = n })

abbrev pub start_service : ControlBlock → Option ControlBlock
start_service s = if s.start then none else some (record s { start = true })

-- `std::set::insert`.
abbrev pub insert_member : String → List String → List String
insert_member k l = if has_key k l then l else k ∷ l

-- One element of a vector given anew.
abbrev pub set_at : {A : Type 0} → ℕ → A → (ℕ → A) → ℕ → A
set_at e x f i = if e == i then x else f i

-- `proxiesTimeout[id]`.
abbrev pub proxy_of : String → ControlBlock → ProxyBlock
proxy_of k s = value_or new_proxy_block (find str_eq k s.proxies_timeout)

abbrev pub set_proxy : String → ProxyBlock → ControlBlock → ControlBlock
set_proxy k b s = record s { proxies_timeout = put str_eq k b s.proxies_timeout }

-- `for (auto i = epoch; i < MAX_EPOCH; i++)`, with the number of rounds that are left.
unfoldable pub approve_from : String → ℕ → ℕ → (ℕ → List String) → ℕ → List String
approve_from k zero i m = m
approve_from k (suc rounds) i m = approve_from k rounds (suc i) (set_at i (insert_member k (m i)) m)

-- An access beyond the vectors has no behaviour.
unfoldable pub malicious_target : String → ℕ → ControlBlock → Option ControlBlock
malicious_target target epoch s =
    let marked =
      set_proxy target
        (record (proxy_of target s) { is_valid = false; first_invalid_epoch = epoch }) s in
    if ltb epoch max_epoch
    then some (record marked {
      malicious_signals = (target, epoch) ∷ s.malicious_signals;
      epoch_stale_bit = set_at epoch true s.epoch_stale_bit;
      epoch_approve_map = approve_from target (max_epoch - epoch) epoch s.epoch_approve_map;
    })
    else none

-- f + 1 of 3f + 1.
abbrev pub quorum : ℕ → ℕ
quorum total = (total - 1) / 3 + 1

unfoldable pub vote : String → String → ℕ → ControlBlock → ControlBlock
vote observer target epoch s =
    let b = proxy_of target s in
    let voters = insert_member observer (b.epoch_voters epoch) in
    set_proxy target (record b { epoch_voters = set_at epoch voters b.epoch_voters }) s

unfoldable pub obtain_malicious : String → String → ℕ → ControlBlock → Option ControlBlock
unfolding vote malicious_target
obtain_malicious observer target epoch s =
    let touched = set_proxy target (proxy_of target s) s in
    if not (proxy_of target s).is_valid
    then some touched
    else let voted = vote observer target epoch s in
      if leb (quorum s.total_server_count) (length ((proxy_of target voted).epoch_voters epoch))
      then malicious_target target epoch voted
      else some voted

unfoldable pub confirmed_client_proxy : String → ℕ → ControlBlock → Option ControlBlock
confirmed_client_proxy observer epoch s =
    if ltb epoch max_epoch
    then some (record s {
      epoch_approve_map =
          set_at epoch (insert_member observer (s.epoch_approve_map epoch)) s.epoch_approve_map;
    })
    else none

-- The three kinds of message from a server that is not marked.
unfoldable pub recv_heartbeat : ℕ → ProofSet → ControlBlock → Option ControlBlock
recv_heartbeat now m s =
    let b = proxy_of m.ip s in
    if b.is_valid then some (set_proxy m.ip (record b { last_heartbeat = now }) s) else none

unfoldable pub recv_con : ℕ → ProofSet → ControlBlock → Option ControlBlock
unfolding confirmed_client_proxy
recv_con now m s =
    let b = proxy_of m.ip s in
    if b.is_valid
    then confirmed_client_proxy m.ip m.epoch
        (set_proxy m.ip (record b { latest_epoch = m.epoch; last_heartbeat = now }) s)
    else none

unfoldable pub recv_malicious : ProofSet → ControlBlock → Option ControlBlock
unfolding obtain_malicious
recv_malicious m s =
    let b = proxy_of m.ip s in
    let touched = set_proxy m.ip b s in
    if not b.is_valid then some touched else obtain_malicious m.ip m.proof m.epoch touched

unfoldable pub recv_proof_set : ℕ → ProofSet → ControlBlock → Option ControlBlock
unfolding recv_heartbeat recv_con recv_malicious
recv_proof_set now m s =
    if not s.start then some s else if not (proxy_of m.ip s).is_valid then some s else elim m.type [
      | heartbeat ↦ recv_heartbeat now m s
      | con ↦ recv_con now m s
      | malicious ↦ recv_malicious m s
      | tx ↦ some s
    ]

-- The test of `waitForEpochFinish`, at which the coordinator goes on.
abbrev pub epoch_finished : ℕ → ControlBlock → Bool
epoch_finished epoch s = length (s.epoch_approve_map epoch) == s.total_server_count

abbrev pub need_re_reserve : ℕ → ControlBlock → Bool
need_re_reserve epoch s = s.epoch_stale_bit epoch

-- Reading `proxiesTimeout[ip]` makes the entry.
unfoldable pub is_current_epoch_invalid : String → ℕ → ControlBlock → Bool × ControlBlock
is_current_epoch_invalid ip epoch s =
    let b = proxy_of ip s in
    (if b.is_valid then true else leb b.first_invalid_epoch epoch, set_proxy ip b s)

-- The message of `broadcastMaliciousViewChange`, to all servers.
abbrev pub malicious_view_change : String → String → ℕ → ProofSet
malicious_view_change local_ip malicious_ip malicious_epoch = record {
  epoch = malicious_epoch;
  type = malicious;
  proof = malicious_ip;
  ip = local_ip;
}

-- One round of `spinCheckTimeout`: the votes that it sends, against each valid server that has been
-- silent for more than three seconds, in nanoseconds.
unfoldable pub timed_out : String → ℕ → List (String × ProxyBlock) → List ProofSet
timed_out local_ip now [] = []
timed_out local_ip now ((k, b) ∷ l) =
    let rest = timed_out local_ip now l in
    if b.is_valid
    then if ltb (b.last_heartbeat + 3 * 10 ^ 9) now
      then malicious_view_change local_ip k (suc b.latest_epoch) ∷ rest
      else rest
    else rest
