-- ===== src/Cluster/Replicas/Mirrors.antt =====
-- What holds of each node, and of each message that was sent, in a run of the replicas.
use macro_service.Prelude.{
  ℕ, ◌+◌, ◌≡◌, ◌≢◌, inl, inr, refl, sym, ap, ◌∙◌, true, false, List, [], ◌∷◌, ◌++◌, arith, All,
  get_elem?, none, some, Option, Option-cases, Bool-cases, leb, ltb, ◌&&◌, Bool,
}
use mathlib.Core.Bool.{true≢false}
use macro_service.Raft.Log.{LogStore}
use macro_service.Raft.State.{NodeRole, follower, candidate, leader, is_leader, LeaderState}
use macro_service.Raft.Storage.{Storage}
use macro_service.Raft.Node.{Node}
use macro_service.Raft.Replication
use macro_service.Raft.Replication.{
  Heartbeat, Message, append_request, message_for, messages, heartbeat_of, send_heartbeat,
}
use macro_service.Cluster.{has, Run, has_won, put}
use macro_service.Cluster.Memory.{put_cases}
use macro_service.Cluster.Replicas.{Net, Sent, log_of}
use macro_service.Cluster.Replicas.History.{History, Winners, Follows, Grows, Follows-Grows}
use macro_service.Cluster.Replicas.Handlers.{Calm}

module _ (won : Winners) (history : History) where
  -- A request was made from a log that follows the leaders, by a node that won its term.
  abbrev pub Origin : Message → Type 0
  Origin (Replication.append_entries req) =
      (has_won won req.term req.leader_id ≡ true)
      × (h : Heartbeat) × (l : LogStore) × (next : ℕ) × (req ≡ append_request h l next)
      × Follows won history l
  Origin _ = Unit

  append_request-Origin :
      (h : Heartbeat) (l : LogStore) (next : ℕ)
      → has_won won h.term h.leader_id ≡ true
      → Follows won history l
      → Origin (Replication.append_entries (append_request h l next))
  unfolding append_request
  append_request-Origin h l next w f = (w, h, l, next, refl, f)

  message_for-Origin :
      (h : Heartbeat) (l : LogStore) (next : ℕ)
      → h.snapshot_last_index ≡ 0
      → has_won won h.term h.leader_id ≡ true
      → Follows won history l
      → Origin (message_for h l next)
  unfolding message_for
  message_for-Origin h l next z w f =
      let whole : (leb next h.snapshot_last_index && ltb 0 h.snapshot_last_index) ≡ false =
        ground arith in
      rw (Origin, whole) (append_request-Origin h l next w f)

  messages-Origin :
      (h : Heartbeat) (l : LogStore)
      → h.snapshot_last_index ≡ 0
      → has_won won h.term h.leader_id ≡ true
      → Follows won history l
      → (peers : Replication.Peers) (i : ℕ) → All Origin (messages h (λ _. l) peers i).0
  unfolding messages
  messages-Origin h l z w f [] i = tt
  messages-Origin h l z w f (peer ∷ peers) i =
      elim (Option-cases (get_elem? h.next_indices (i + 1))) [
        | inl outside ↦ rw (All, outside) tt
        | inr (next, inside) ↦
            rw (All, inside)
              (message_for-Origin h l next z w f, messages-Origin h l z w f peers (i + 1))
      ]

Origin-Grows :
    (won won' : Winners) (history history' : History)
    → Grows won won' history history'
    → (m : Message) → Origin won history m
    → Origin won' history' m
Origin-Grows won won' history history' g (Replication.append_entries req) (w, h, l, next, made, f) =
    (
      g.winners req.term req.leader_id w,
      h,
      l,
      next,
      made,
      Follows-Grows won won' history history' l g f,
    )
Origin-Grows won won' history history' g (Replication.install_snapshot req) o = tt
Origin-Grows won won' history history' g Replication.nothing o = tt

pub sent-Grows :
    (won won' : Winners) (history history' : History) (ms : List Message)
    → Grows won won' history history'
    → All (Origin won history) ms
    → All (Origin won' history') ms
sent-Grows won won' history history' [] g h = tt
sent-Grows won won' history history' (m ∷ ms) g h =
    (Origin-Grows won won' history history' g m h.0, sent-Grows won won' history history' ms g h.1)

All-append {ℓ κ} :
    {A : Type ℓ} (P : A → Type κ) (xs ys : List A) → All P xs → All P ys → All P (xs ++ ys)
All-append P [] ys h k = k
All-append P (x ∷ xs) ys h k = (h.0, All-append P xs ys h.1 k)

pub All-Sent {κ} :
    (P : Message → Type κ) (m : Message) (xs : List Message) → Sent m xs → All P xs → P m
All-Sent P m [] s h = absurd s
All-Sent P m (x ∷ xs) (inl here) h = rw here h.0
All-Sent P m (x ∷ xs) (inr behind) h = All-Sent P m xs behind h.1

module _ {D : Type 0} (storage : Storage D) where
  pub record Replica (won : Winners) (history : History) (i : ℕ) (n : Node D) : Type 0 where
    pub node_id : n.state.node_id ≡ i
    pub log : Follows won history n.log
    pub disk : Follows won history (log_of storage n.disk)
    pub leads :
        n.state.role ≡ leader
        → (n.log ≡ history n.state.persistent.current_term)
          × (has_won won n.state.persistent.current_term i ≡ true)
    pub waits : n.state.role ≡ candidate → has_won won n.state.persistent.current_term i ≢ true

  -- A leader has the log of its term, and a candidate has not won its term; each winner voted for
  -- itself.
  pub record Mirrors (history : History) (s : Net D) : Type 0 where
    pub replicas : (i : ℕ) → Replica s.run.winners history i (s.run.nodes i)
    pub sent : All (Origin s.run.winners history) s.sent
    pub voted : (t c : ℕ) → has_won s.run.winners t c ≡ true → has s.run.grants c t c ≡ true

  pub put-Replica :
      (won : Winners) (history : History) (i : ℕ) (m : Node D) (r : Run D)
      → Replica won history i m
      → ((v : ℕ) → i ≢ v → Replica won history v (r.nodes v))
      → (v : ℕ) → Replica won history v ((put i m r).nodes v)
  put-Replica won history i m r here there v =
      put_cases (Replica won history) i m r v here (there v)

  pub Calm-Replica :
      (won : Winners) (history : History) (i : ℕ) (n m : Node D)
      → Calm storage n m
      → Replica won history i n
      → Replica won history i m
  Calm-Replica won history i n m c r = record {
    node_id = c.quiet.node_id ∙ r.node_id;
    log = rw c.quiet.log r.log;
    disk = elim c.disk [ inl kept ↦ rw kept r.disk | inr written ↦ rw written r.log ];
    leads = λ h.
        let (role, term) = c.quiet.leads h in
        let (own, elected) = r.leads role in
        (c.quiet.log ∙ (own ∙ ap history (sym term)), rw term elected);
    waits = λ h. let (role, term) = c.quiet.waits h in rw term (r.waits role);
  }

  is_leader-leader : (r : NodeRole) → is_leader r ≡ true → r ≡ leader
  is_leader-leader leader h = refl
  is_leader-leader follower h = absurd (true≢false (sym h))
  is_leader-leader candidate h = absurd (true≢false (sym h))

  heartbeat-Origin :
      (won : Winners) (history : History) (i max_entries : ℕ) (peers : Replication.Peers)
      (n : Node D) (ls : Option LeaderState)
      → Replica won history i n
      → n.state.role ≡ leader
      → All
          (Origin won history)
          (elim ls as (λ _. List Message × Bool) [
            | none ↦ ([], true)
            | some ls ↦
                messages (heartbeat_of storage max_entries ls.next_index n) (λ _. n.log) peers 0
          ]).0
  unfolding heartbeat_of
  heartbeat-Origin won history i max_entries peers n none r role = tt
  heartbeat-Origin won history i max_entries peers n (some ls) r role =
      messages-Origin won history (heartbeat_of storage max_entries ls.next_index n) n.log
        r.log.snapshot (rw (r.node_id) ((r.leads role).1)) r.log peers 0

  send_heartbeat-Origin :
      (won : Winners) (history : History) (i max_entries : ℕ) (peers : Replication.Peers)
      (n : Node D)
      → Replica won history i n
      → All (Origin won history) (send_heartbeat storage max_entries peers (λ _. n.log) n).0
  unfolding send_heartbeat
  send_heartbeat-Origin won history i max_entries peers n r =
      elim (Bool-cases (is_leader n.state.role)) [
        | inr other ↦ rw (All, other) tt
        | inl leads ↦
            rw (All, leads)
              (heartbeat-Origin won history i max_entries peers n n.state.leader_state r
                (is_leader-leader n.state.role leads))
      ]

  -- Of a heartbeat all requests are made from the log of the leader.
  pub beats-Mirrors :
      (history : History) (s : Net D) (i max_entries : ℕ) (peers : Replication.Peers)
      → Mirrors history s
      → Mirrors history (record {
        run = s.run;
        sent =
            (send_heartbeat storage max_entries peers (λ _. (s.run.nodes i).log) (s.run.nodes i)).0
            ++ s.sent;
      })
  beats-Mirrors history s i max_entries peers m = record {
    replicas = m.replicas;
    sent =
        All-append (Origin s.run.winners history) _ s.sent
          (send_heartbeat-Origin s.run.winners history i max_entries peers (s.run.nodes i)
            (m.replicas i))
          m.sent;
    voted = m.voted;
  }
