-- ===== src/Cluster/Votes.antt =====
-- The votes given in a run, counted over the members of the cluster.
use macro_service.Raft.State.{majority_of}
use macro_service.Raft.Log.{LogStore}
use macro_service.Prelude.{
  Bool, Bool-cases, if◌then◌else◌, ℕ, ◌+◌, ◌≤◌, ◌≡◌, ◌≢◌, ◌⊎◌, refl, ◌∙◌, true, List, [], ◌∷◌, map,
  arith, length, ◌<◌, inl, inr, sym,
}
use macro_service.Raft.Messages.{VoteRequest, VoteResponse}
use macro_service.Raft.Election.{Rpc, Peers, votes_received, collect_votes, vote_request}
use macro_service.Raft.Election.Majority.{
  grants, granted_by_le, collect_votes_lem, majorities_overlap,
}
use macro_service.Cluster.{Grant, has, votes, Backed, has_won, IsClusterOf}
use mathlib.Core.List.{Permᴰ}

pub has_cons :
    (e : Grant) (g : List Grant) (v t c : ℕ)
    → has (e ∷ g) v t c ≡ true
    → ((e.0 ≡ v) × (e.1.term ≡ t) × (e.1.candidate_id ≡ c)) ⊎ (has g v t c ≡ true)
has_cons (v', req, log) g v t c h = ground arith

pub has-later :
    (e : Grant) (g : List Grant) (v t c : ℕ) → has g v t c ≡ true → has (e ∷ g) v t c ≡ true
has-later (v', req, log) g v t c h = ground arith

pub votes-later :
    (e : Grant) (g : List Grant) (t c : ℕ) (members : List ℕ)
    → votes g t c members ≤ votes (e ∷ g) t c members
votes-later e g t c [] = omega arith
votes-later e g t c (v ∷ members) = ground (arith, votes-later e g t c members, has-later e g v t c)

pub votes-Perm :
    {k l : List ℕ} (g : List Grant) (t c : ℕ) → Permᴰ k l → votes g t c k ≡ votes g t c l
votes-Perm g t c Permᴰ.nil = refl
votes-Perm g t c (Permᴰ.cons e p) = rw (e, votes-Perm g t c p)
votes-Perm g t c (Permᴰ.swap d e) = rw (d, e) (omega arith)
votes-Perm g t c (Permᴰ.trans p q) = votes-Perm g t c p ∙ votes-Perm g t c q

pub length-Perm : {k l : List ℕ} → Permᴰ k l → length k ≡ length l
length-Perm Permᴰ.nil = refl
length-Perm (Permᴰ.cons e p) = rw (length-Perm p)
length-Perm (Permᴰ.swap d e) = refl
length-Perm (Permᴰ.trans p q) = length-Perm p ∙ length-Perm q

-- Where nobody votes for both of two candidates, they share the members.
pub votes_add :
    (g : List Grant) (t c d : ℕ) (members : List ℕ)
    → ((v : ℕ) → has g v t c ≡ true → has g v t d ≡ true → c ≡ d)
    → c ≢ d
    → votes g t c members + votes g t d members ≤ length members
votes_add g t c d [] u h = omega arith
votes_add g t c d (v ∷ members) u h = ground (arith, u v, votes_add g t c d members u h)

-- The grants that are counted were given.
pub grants-le-votes :
    (g : List Grant) (rpc : Rpc VoteRequest VoteResponse) (req : VoteRequest) (peers : Peers)
    → Backed g rpc req peers
    → grants rpc req peers ≤ votes g req.term req.candidate_id (map (λ p. p.0) peers)
grants-le-votes g rpc req [] b = omega arith
grants-le-votes g rpc req ((id, addr) ∷ peers) b =
    ground (arith, granted_by_le (rpc addr req), b.0, grants-le-votes g rpc req peers b.1)

pub has_won_cons :
    (t c : ℕ) (w : List (ℕ × ℕ)) (t' c' : ℕ)
    → has_won ((t, c) ∷ w) t' c' ≡ true
    → ((t ≡ t') × (c ≡ c')) ⊎ (has_won w t' c' ≡ true)
has_won_cons t c w t' c' h = ground arith

length-ids : (peers : Peers) → length (0 ∷ map (λ p. p.0) peers) ≡ length peers + 1
length-ids [] = refl
length-ids (p ∷ peers) = ground (arith, length-ids peers)

-- The votes that an election counts are those of more than half of the members.
pub votes_enough :
    (members : List ℕ) (i t c count : ℕ) (peers : Peers) (rpc : Rpc VoteRequest VoteResponse)
    (log : LogStore) (g : List Grant)
    → IsClusterOf members i (map (λ p. p.0) peers)
    → has g i t c ≡ true
    → Backed g rpc (vote_request t c log) peers
    → collect_votes rpc (vote_request t c log) peers 1 ≡ votes_received count
    → majority_of (length peers) ≤ count
    → length members < votes g t c members + votes g t c members
unfolding vote_request
votes_enough members i t c count peers rpc log g cluster own backed counted enough =
    let req = vote_request t c log in
    let given = grants-le-votes g rpc req peers backed in
    elim (collect_votes_lem rpc req peers 1) [
      | inl early ↦ absurd (ground (arith, early.0.1, counted))
      | inr all ↦
          let size : length members ≡ length peers + 1 =
            sym (length-Perm cluster) ∙ length-ids peers in
          let same : 1 + votes g t c (map (λ p. p.0) peers) ≡ votes g t c members =
            rw own at (votes-Perm g t c cluster) in
          let counts : count ≡ 1 + grants rpc req peers = ground (arith, sym counted ∙ all.0) in
          omega (arith, majorities_overlap (length peers) count count enough enough)
    ]

-- How many of the members are chosen.
abbrev pub count_of : (ℕ → Bool) → List ℕ → ℕ
count_of chosen [] = 0
count_of chosen (v ∷ members) = (if chosen v then 1 else 0) + count_of chosen members

-- The voter granted this request, with this log.
abbrev pub Given : List Grant → ℕ → VoteRequest → LogStore → Type 0
Given [] v req log = ⊥
Given ((v', req', log') ∷ g) v req log =
    ((v' ≡ v) × (req' ≡ req) × (log' ≡ log)) ⊎ Given g v req log

pub Given-has :
    (g : List Grant) (v t c : ℕ)
    → has g v t c ≡ true
    → (req : VoteRequest) × (log : LogStore) × Given g v req log
      × (req.term ≡ t)
      × (req.candidate_id ≡ c)
Given-has [] v t c h = absurd (ground arith)
Given-has ((v', req, log) ∷ g) v t c h = elim (has_cons (v', req, log) g v t c h) [
  | inl here ↦ (req, log, inl (here.0, refl, refl), here.1, here.2)
  | inr later ↦
      (let (req', log', given, term, candidate) = Given-has g v t c later in
        (req', log', inr given, term, candidate))
]

-- More members than there are hold a vote or are chosen, so that one of them does both.
pub overlap :
    (g : List Grant) (t c : ℕ) (chosen : ℕ → Bool) (members : List ℕ)
    → length members < count_of chosen members + votes g t c members
    → (v : ℕ) × (chosen v ≡ true) × (has g v t c ≡ true)
overlap g t c chosen [] h = absurd (omega arith)
overlap g t c chosen (v ∷ members) h = elim (Bool-cases (chosen v)) [
  | inr other ↦ overlap g t c chosen members (ground (arith, other))
  | inl yes_chosen ↦ elim (Bool-cases (has g v t c)) [
    | inr none_given ↦ overlap g t c chosen members (ground (arith, none_given, yes_chosen))
    | inl voted ↦ (v, yes_chosen, voted)
  ]
]
