-- ===== src/Startup/Durable.antt =====
-- main.rs over the storage: what a node acknowledged it still knows after a restart.
use macro_service.Prelude.{ℕ, ◌≡◌, refl, ap, true, false, some, List, arith, ◌≤◌}
use macro_service.Raft.Log.{LogStore}
use macro_service.Raft.State.{PersistentState}
use macro_service.Raft.Storage.{PersistentData, Storage, from_state_and_log}
use macro_service.Raft.Messages.{AppendEntriesRequest, VoteRequest, VoteResponse}
use macro_service.Raft.Node.{Node, returns}
use macro_service.Raft.Rpc.{append_entries}
use macro_service.Raft.Election.{handle_request_vote, undisturbed, save_in_gap}
use macro_service.Raft.Election.Votes.{granted_state}
use macro_service.Startup.{start_from, recover}

module _ {D : Type 0} (storage : Storage D) (node_id : ℕ) (peers : List ℕ) where
  -- A saved term, vote and log are what a node restarts with.
  pub recover-save :
      (p : PersistentState) (l : LogStore) (disk : D)
      → (storage.save (from_state_and_log p l) disk).1 ≡ true
      → let (s, l') =
          recover storage node_id peers (storage.save (from_state_and_log p l) disk).0 in
        (s.persistent ≡ p) × (l' ≡ l)
  unfolding recover from_state_and_log
  recover-save p l disk ok =
      rw (storage.load-save_ok (from_state_and_log p l) disk ok, start_from) (refl, refl)

  -- After a save that failed the node restarts as it would have before.
  pub recover-save_err :
      (d : PersistentData) (disk : D)
      → (storage.save d disk).1 ≡ false
      → recover storage node_id peers (storage.save d disk).0 ≡ recover storage node_id peers disk
  unfolding recover
  recover-save_err d disk err = ap (start_from node_id peers) (storage.load-save_err d disk err)

  disk-append_entries :
      (now ms : ℕ) (req : AppendEntriesRequest) (n : Node D)
      → (append_entries storage now ms req n).1.success ≡ true
      → (append_entries storage now ms req n).0.disk
        ≡ (storage.save
            (from_state_and_log
              (append_entries storage now ms req n).0.state.persistent
              (append_entries storage now ms req n).0.log)
            n.disk).0
  unfolding append_entries
  disk-append_entries now ms req n won = ground arith

  -- What `append_entries` acknowledges with a success is saved: if the save succeeds, the node
  -- restarts with the term, the vote and the log that it answered with.
  pub append_entries-durable :
      (now ms : ℕ) (req : AppendEntriesRequest) (n : Node D)
      → (append_entries storage now ms req n).1.success ≡ true
      → (storage.save
          (from_state_and_log
            (append_entries storage now ms req n).0.state.persistent
            (append_entries storage now ms req n).0.log)
          n.disk).1
        ≡ true
      → ((recover storage node_id peers (append_entries storage now ms req n).0.disk).0.persistent
          ≡ (append_entries storage now ms req n).0.state.persistent)
        × ((recover storage node_id peers (append_entries storage now ms req n).0.disk).1
            ≡ (append_entries storage now ms req n).0.log)
  append_entries-durable now ms req n won ok =
      rw (disk-append_entries now ms req n won) (recover-save _ _ n.disk ok)

  disk-handle_request_vote :
      (req : VoteRequest) (n m : Node D) (a : VoteResponse)
      → n.state.persistent.current_term ≤ req.term
      → handle_request_vote storage undisturbed req n ≡ returns m a
      → m.disk
        ≡ (storage.save
            (from_state_and_log
              (record { current_term = req.term; voted_for = some req.candidate_id })
              n.log)
            n.disk).0
  unfolding handle_request_vote save_in_gap
  disk-handle_request_vote req n m a le e = ground (arith, granted_state req n.state le)

  -- A vote that is granted, with no other task at work, is saved before the answer: if the save
  -- succeeds, the node restarts in the term of the request with its vote for the candidate.
  pub vote_durable :
      (req : VoteRequest) (n m : Node D) (a : VoteResponse)
      → n.state.persistent.current_term ≤ req.term
      → handle_request_vote storage undisturbed req n ≡ returns m a
      → (storage.save
          (from_state_and_log
            (record { current_term = req.term; voted_for = some req.candidate_id })
            n.log)
          n.disk).1
        ≡ true
      → (recover storage node_id peers m.disk).0.persistent
        ≡ record { current_term = req.term; voted_for = some req.candidate_id }
  vote_durable req n m a le e ok =
      rw (disk-handle_request_vote req n m a le e) ((recover-save _ n.log n.disk ok).0)
