-- ===== src/Cluster/Elections.antt =====
-- A term has one winner, and a winner's log is not behind.
use macro_service.Prelude.{
  Bool, [], ℕ, ◌+◌, ◌<◌, ◌≡◌, inl, inr, true, List, ◌∷◌, arith, length, All,
}
use macro_service.Raft.Log.{LogStore}
use macro_service.Raft.Storage.{Storage}
use macro_service.Raft.Messages.{VoteRequest}
use macro_service.Raft.Node.{Node}
use macro_service.Raft.Election.{log_is_up_to_date}
use macro_service.Kv.Store.{KvCodec}
use macro_service.Cluster.{Grant, Run, has_won, Reach}
use macro_service.Cluster.Invariant.{IsFair, Reach-Inv}
use macro_service.Cluster.Grants.{IsReliable}
use macro_service.Cluster.Votes.{count_of, Given, Given-has, overlap, votes_add}
use native.Mathlib.Decide.{ℕ_discrete}

fair_of :
    (g : List Grant) (v : ℕ) (req : VoteRequest) (log : LogStore)
    → Given g v req log
    → All IsFair g
    → log_is_up_to_date req log ≡ true
fair_of [] v req log h fair = absurd h
fair_of ((v', req', log') ∷ g) v req log (inl here) (f, fair) = rw (here.1, here.2) at f
fair_of ((v', req', log') ∷ g) v req log (inr behind) (f, fair) = fair_of g v req log behind fair

module _ {D : Type 0} (storage : Storage D) (members : List ℕ) where
  -- In every run of a cluster in which saves succeed, with crashes, restarts, lost, late and doubled
  -- messages, and each handler by itself, the winners of the elections of one term have one identifier.
  pub election_safety :
      (codec : KvCodec) (start : ℕ → Node D) (r : Run D) (t c d : ℕ)
      → IsReliable storage
      → Reach storage codec members start r
      → has_won r.winners t c ≡ true
      → has_won r.winners t d ≡ true
      → c ≡ d
  election_safety codec start r t c d reliable run w w' =
      let h = Reach-Inv storage members codec reliable run in
      elim (ℕ_discrete c d) [
        | yes same ↦ same
        | no other ↦ absurd (
            omega (
              arith,
              votes_add r.grants t c d members (λ v. h.unique v t c d) other,
              h.won t c w,
              h.won t d w',
            ))
      ]

  -- In every run of a cluster in which saves succeed, of any more than half of the members one gave the
  -- winner of an election its vote in the term that it won, for a request that was not behind its own
  -- log at that moment.
  pub election_restriction :
      (codec : KvCodec) (start : ℕ → Node D) (r : Run D) (t c : ℕ) (chosen : ℕ → Bool)
      → IsReliable storage
      → Reach storage codec members start r
      → has_won r.winners t c ≡ true
      → length members < count_of chosen members + count_of chosen members
      → (v : ℕ) × (req : VoteRequest) × (log : LogStore) × (chosen v ≡ true)
        × Given r.grants v req log
        × (req.term ≡ t)
        × (req.candidate_id ≡ c)
        × (log_is_up_to_date req log ≡ true)
  election_restriction codec start r t c chosen reliable run w many =
      let h = Reach-Inv storage members codec reliable run in
      let (v, is_chosen, voted) =
        overlap r.grants t c chosen members (omega (arith, h.won t c w)) in
      let (req, log, given, term, candidate) = Given-has r.grants v t c voted in
      (v, req, log, is_chosen, given, term, candidate, fair_of r.grants v req log given h.fair)
