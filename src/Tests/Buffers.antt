-- ===== src/Tests/Buffers.antt =====
-- The theorems on the buffers of transactions at a concrete run of two proxies.
use neu_chain.Prelude.{ℕ, zero, suc, ◌≡◌, ◌<◌, refl, ◌⊎◌, false, some, List, [], ◌∷◌, In, arith}
use neu_chain.Transaction.{Transaction}
use neu_chain.Consensus.{set_at}
use neu_chain.EpochBuffer.{
  Buffer, push_to_buffer, finish_task, async_empty_buffer, barrier_action, signal_finished, Phase,
  idle, waiting, emptying, released, Proxy, System, new_system, Step, pushes, ends, arrives,
  releases, finishes, Reach, starts, steps, push_queue,
}
use neu_chain.EpochBuffer.Invariant.{Ascending}
use neu_chain.EpochBuffer.History.{pushed}
use neu_chain.EpochBuffer.Order.{CanGo, Reach-Ascending, Reach-CanGo}
use neu_chain.Tests.Data.{copy}

-- The first proxy pushes a transaction, and both end the epoch.
abbrev one_pushed : System
one_pushed = record (new_system 4 2) {
  proxies =
      set_at 0
        (record ((new_system 4 2).proxies 0) {
          buffer = push_queue (copy 1 "a" "b") ((new_system 4 2).proxies 0).buffer;
        })
        (new_system 4 2).proxies;
}

abbrev after_end : ℕ → System → System
after_end i s = record s {
  proxies =
      set_at i
        (record (s.proxies i) {
          buffer = async_empty_buffer (s.proxies i).epoch (s.proxies i).buffer;
          epoch = suc (s.proxies i).epoch;
        })
        s.proxies;
}

abbrev after_arrival : ℕ → System → System
after_arrival i s = record s {
  proxies =
      set_at i
        (record (s.proxies i) {
          buffer = record (s.proxies i).buffer { workload = [] };
          worker = waiting 4;
        })
        s.proxies;
}

abbrev both_ended : System
both_ended = after_end 1 (after_end 0 one_pushed)

abbrev both_arrived : System
both_arrived = after_arrival 1 (after_arrival 0 both_ended)

abbrev left : System
left = record both_arrived {
  manager = barrier_action both_arrived.manager;
  proxies =
      λ i. record (both_arrived.proxies i) { worker = released (both_arrived.proxies i).worker };
}

abbrev handled_one : System
handled_one = record left {
  manager = signal_finished left.manager;
  proxies =
      set_at 0
        (record (left.proxies 0) {
          buffer = record (left.proxies 0).buffer {
            queues = set_at 4 [] (left.proxies 0).buffer.queues;
          };
          worker = idle;
        })
        left.proxies;
  handled = copy 1 "a" "b" ∷ [];
}

to_ended : Reach false 2 4 both_ended
unfolding push_to_buffer
to_ended =
    steps
      (steps (steps starts (pushes 0 (copy 1 "a" "b") (omega arith) refl refl))
        (ends 0 (omega arith)))
      (ends 1 (omega arith))

all_wait : (i : ℕ) → i < 2 → (epoch : ℕ) × ((both_arrived.proxies i).worker ≡ waiting epoch)
all_wait zero h = (4, refl)
all_wait (suc zero) h = (4, refl)
all_wait (suc (suc i)) h = absurd (omega arith)

to_handled : Reach false 2 4 handled_one
unfolding finish_task neu_chain.EpochBuffer.sync_empty_buffer neu_chain.EpochBuffer.check_epochs
to_handled =
    steps
      (steps
        (steps (steps to_ended (arrives 0 4 (omega arith) refl refl))
          (arrives 1 4 (omega arith) refl refl))
        (releases all_wait))
      (finishes 0 4 (omega arith) refl refl)

Reach-Ascending_example :
    Ascending handled_one.handled
    × ((t u : Transaction)
        → In t handled_one.handled
        → In u (pushed to_handled)
        → u.epoch < t.epoch
        → In u handled_one.handled)
    × ((t : Transaction) (i e : ℕ)
        → In t handled_one.handled
        → i < 2
        → e < t.epoch
        → ((handled_one.proxies i).buffer.queues e ≡ []) × (e < (handled_one.proxies i).epoch))
    × ((i e : ℕ)
        → i < 2
        → (handled_one.proxies i).worker ≡ emptying e
        → (o : List Transaction × Buffer) × (finish_task false e (handled_one.proxies i).buffer
            ≡ some o))
Reach-Ascending_example = Reach-Ascending 2 4 handled_one to_handled

ended : (i : ℕ) → i < 2 → both_ended.manager.global_processing_epoch < (both_ended.proxies i).epoch
ended zero h = omega arith
ended (suc zero) h = omega arith
ended (suc (suc i)) h = absurd (omega arith)

Reach-CanGo_example :
    ((i : ℕ) × (i < 2) × CanGo 2 4 (both_ended.proxies i))
    ⊎ ((i : ℕ) → i < 2 → (e : ℕ) × ((both_ended.proxies i).worker ≡ waiting e))
Reach-CanGo_example = Reach-CanGo 2 4 both_ended to_ended ended
