-- ===== src/CyclicBarrier.antt =====
-- The barrier at which threads wait for each other, src/common/cyclic_barrier.cpp. A call of `await`
-- takes the lock, so calls come one after another; a thread that has to wait does so after its call
-- has changed the state.
use native.Mathlib.Nat.{suc-mul}
use neu_chain.Prelude.{
  ℕ, zero, suc, ◌+◌, ◌*◌, ◌%◌, ◌^◌, ◌≤◌, ◌<◌, ◌≡◌, refl, sym, ap, subst, tests, ◌∙◌, Bool, true,
  false, ltb, leb, if◌then◌else◌, Bool-cases, inl, inr, arith, lt→ltb, leb→le,
}

-- `calls` counts the runs of the callback.
pub record CyclicBarrier : Type 0 where
  pub parties : ℕ
  pub current_waits : ℕ
  pub calls : ℕ

abbrev pub new_barrier : ℕ → CyclicBarrier
new_barrier parties = record { parties = parties; current_waits = 0; calls = 0 }

-- The callback is run, and all who wait are notified.
abbrev pub release : CyclicBarrier → CyclicBarrier
release b = record b { current_waits = 0; calls = suc b.calls }

-- `current_waits++`, for a 32-bit counter.
abbrev pub arrived : CyclicBarrier → CyclicBarrier
arrived b =
    if ltb b.current_waits b.parties
    then record b { current_waits = suc b.current_waits % 2 ^ 32 }
    else b

-- Whether the call goes on at once, and the state that it leaves to the others.
unfoldable pub arrive : CyclicBarrier → Bool × CyclicBarrier
arrive b = if leb b.parties b.current_waits then (true, release b) else (false, b)

unfoldable pub await : CyclicBarrier → Bool × CyclicBarrier
unfolding arrive
await b = arrive (arrived b)

abbrev pub reset : CyclicBarrier → CyclicBarrier
reset b = release b

unfoldable pub await_times : ℕ → CyclicBarrier → CyclicBarrier
await_times zero b = b
await_times (suc n) b = (await (await_times n b)).1

-- What n calls have done: every so many calls, the callback is run, and the rest of them waits.
pub record Counts (parties n : ℕ) (b : CyclicBarrier) : Type 0 where
  pub same : b.parties ≡ parties
  pub waits : b.current_waits < parties
  pub total : b.calls * parties + b.current_waits ≡ n

arrived-suc :
    (parties n : ℕ) (b : CyclicBarrier)
    → parties < 2 ^ 32
    → Counts parties n b
    → arrived b ≡ record b { current_waits = suc b.current_waits }
arrived-suc parties n b small i =
    ap (λ c. if c then record b { current_waits = suc b.current_waits % 2 ^ 32 } else b)
      (lt→ltb b.current_waits b.parties (subst (λ p. b.current_waits < p) (sym i.same) i.waits))
    ∙ ap (λ w. record b { current_waits = w }) (fits i.waits)
  where
    fits : b.current_waits < parties → suc b.current_waits % 2 ^ 32 ≡ suc b.current_waits
    fits h = omega arith

arrive-Counts :
    (parties n : ℕ) (b : CyclicBarrier)
    → 0 < parties
    → Counts parties n b
    → Counts parties (suc n) (arrive (record b { current_waits = suc b.current_waits })).1
unfolding arrive
arrive-Counts parties n b some_party i = elim (Bool-cases (leb b.parties (suc b.current_waits))) [
  | inl full ↦ rw full (record {
    same = i.same;
    waits = some_party;
    total = last (subst (λ p. p ≤ suc b.current_waits) i.same (leb→le _ _ full));
  })
  | inr room ↦ rw room (record {
    same = i.same;
    waits = early (subst (λ p. leb p (suc b.current_waits) ≡ false) i.same room);
    total = let total = i.total in omega arith;
  })
]
  where
    last : parties ≤ suc b.current_waits → suc b.calls * parties + 0 ≡ suc n
    last h =
        let waits = i.waits in
        let total = i.total in let group = suc-mul b.calls parties in omega arith

    early : leb parties (suc b.current_waits) ≡ false → suc b.current_waits < parties
    early h = let waits = i.waits in grind tests

arrive-opens :
    (parties : ℕ) (b : CyclicBarrier)
    → b.parties ≡ parties
    → (arrive b).0 ≡ leb parties b.current_waits
unfolding arrive
arrive-opens parties b same = elim (Bool-cases (leb b.parties b.current_waits)) [
  | inl full ↦ rw full (sym full ∙ ap (λ p. leb p b.current_waits) same)
  | inr room ↦ rw room (sym room ∙ ap (λ p. leb p b.current_waits) same)
]

-- Calls of a barrier for at least one thread, and fewer than 2 ^ 32: after n of them, the callback
-- has been run once for every group of as many calls as there are threads, and the rest of the calls
-- wait. The next call goes on at once, and runs the callback, just where it completes a group.
pub await_times-Counts :
    (parties n : ℕ)
    → 0 < parties
    → parties < 2 ^ 32
    → (let b = await_times n (new_barrier parties) in
        Counts parties n b × ((await b).0 ≡ leb parties (suc b.current_waits)))
unfolding await_times await
await_times-Counts parties n some_party small =
    (counts n, opens (await_times n (new_barrier parties)) (counts n))
  where
    counts : (m : ℕ) → Counts parties m (await_times m (new_barrier parties))
    counts zero = record { same = refl; waits = some_party; total = omega arith }
    counts (suc m) =
        let b = await_times m (new_barrier parties) in
        subst (λ c. Counts parties (suc m) (arrive c).1)
          (sym (arrived-suc parties m b small (counts m)))
          (arrive-Counts parties m b some_party (counts m))

    opens :
        (b : CyclicBarrier) → Counts parties n b → (await b).0 ≡ leb parties (suc b.current_waits)
    opens b i =
        ap (λ c. (arrive c).0) (arrived-suc parties n b small i)
        ∙ arrive-opens parties (record b { current_waits = suc b.current_waits }) i.same
