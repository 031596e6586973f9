-- ===== src/Tests/Consensus.antt =====
-- The theorems on the consensus of the servers, at concrete inputs.
use neu_chain.Prelude.{
  ℕ, ◌⊎◌, false, length, map, All, In, ◌≡◌, refl, true, [], ◌∷◌, String, List, some, none, ◌≤◌,
  arith,
}
use neu_chain.Consensus.{
  ProofType, con, malicious, ProofSet, ControlBlock, new_control_block, start_service,
  set_consensus_count, recv_proof_set, proxy_of, epoch_finished, need_re_reserve, max_epoch, quorum,
}
use neu_chain.Consensus.Members.{Distinct}
use neu_chain.Consensus.Invariant.{Said, VotesAgainst, Confirms, Keeps, MarkedBy, Signalled}
use neu_chain.Consensus.Quorum.{
  Reach, starts, receives, Reach-Marked, Reach-epoch_finished, Reach-final,
}

abbrev vote_of : String → ProofSet
vote_of v = record { epoch = 9998; type = malicious; proof = "d"; ip = v }

abbrev confirm_of : String → ProofSet
confirm_of v = record { epoch = 9998; type = con; proof = ""; ip = v }

-- Four servers; a and b vote against d, and the three confirm the epoch.
abbrev messages : List ProofSet
messages = confirm_of "c" ∷ confirm_of "b" ∷ confirm_of "a" ∷ vote_of "b" ∷ vote_of "a" ∷ []

abbrev state_after : List ProofSet → ControlBlock
state_after [] = record new_control_block { start = true; total_server_count = 4 }
state_after (m ∷ ms) = elim (recv_proof_set 7 m (state_after ms)) [
  | some s ↦ s
  | none ↦ state_after ms
]

reached : Reach 4 messages (state_after messages)
unfolding recv_proof_set neu_chain.HashMap.find neu_chain.HashMap.erase
reached =
    receives 7 (confirm_of "c")
      (receives 7 (confirm_of "b")
        (receives 7 (confirm_of "a")
          (receives 7 (vote_of "b") (receives 7 (vote_of "a") (starts refl refl) refl) refl) refl)
        refl)
      refl

marked : (proxy_of "d" (state_after messages)).is_valid ≡ false
unfolding recv_proof_set neu_chain.HashMap.find neu_chain.HashMap.erase
marked = refl

finished : epoch_finished 9998 (state_after messages) ≡ true
unfolding recv_proof_set neu_chain.HashMap.find neu_chain.HashMap.erase
    neu_chain.Consensus.approve_from
finished = refl

Reach-Marked_example :
    (voters : List String) × Distinct voters
    × (quorum 4 ≤ length voters)
    × All
        (λ v.
          Said
            (VotesAgainst v "d" (proxy_of "d" (state_after messages)).first_invalid_epoch)
            messages)
        voters
    × ((v : String) × In v voters × (¬ In v ("a" ∷ [])))
Reach-Marked_example =
    Reach-Marked 4 messages (state_after messages) "d" ("a" ∷ []) reached marked (omega arith)

Reach-epoch_finished_example :
    (servers : List String) × Distinct servers
    × (length servers ≡ 4)
    × All
        (λ o. Said (Confirms o 9998) messages ⊎ MarkedBy 9998 (proxy_of o (state_after messages)))
        servers
Reach-epoch_finished_example =
    Reach-epoch_finished 4 messages (state_after messages) 9998 reached finished

Reach-final_example :
    (s' : ControlBlock) × (recv_proof_set 8 (vote_of "c") (state_after messages) ≡ some s')
    × Keeps (state_after messages) s'
    × Distinct (map (λ x. x.0) s'.malicious_signals)
    × ((t : String) (e : ℕ) → In (t, e) s'.malicious_signals → Signalled e (proxy_of t s'))
Reach-final_example =
    Reach-final 4 messages (state_after messages) 8 (vote_of "c") reached (omega arith)
