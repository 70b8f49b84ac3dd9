-- ===== src/Raft/Agreement/Everyone.antt =====
-- replication.rs and rpc.rs together: a leader and all its followers, which it sends messages to in any
-- order, and what it can commit then.
use macro_service.Prelude.{
  false, ==_iff, ℕ, zero, suc, ◌+◌, ◌≤◌, ◌<◌, ◌≡◌, ◌≢◌, refl, ap, ◌∙◌, List, [], ◌∷◌, ◌++◌, arith,
  if◌then◌else◌, ◌==◌, inl, inr, le-or-lt,
}
use macro_service.Raft.Log.{LogStore, last_index}
use macro_service.Raft.State.{RaftState}
use macro_service.Raft.Storage.{Storage}
use macro_service.Raft.Node.{Node}
use macro_service.Raft.Replication.{Heartbeat}
use macro_service.Raft.Agreement.{AgreeUpTo}
use macro_service.Raft.Agreement.Answered.{Tracks, Keeps}
use macro_service.Raft.Agreement.Exchange.{exchange, rounds}
use macro_service.Raft.Agreement.Round.{CanSend, Between, Frame}
use macro_service.Raft.Agreement.CatchUp.{rounds-CaughtUp}
use macro_service.Kv.Store.{KvCodec}

abbrev repeat : ℕ → ℕ → List ℕ
repeat zero i = []
repeat (suc k) i = i ∷ repeat k i

apart : (i j : ℕ) → i ≢ j → (i == j) ≡ false
apart i j h = ground (arith, h)

module _ {D : Type 0} (storage : Storage D) (codec : KvCodec) (now ms majority count : ℕ)
    (h : Heartbeat) (l : LogStore) where
  -- The leader and its followers, by their places.
  abbrev pub Group : Type 0
  Group = RaftState × (ℕ → Node D)

  abbrev with_follower : ℕ → (ℕ → Node D) → RaftState × Node D → Group
  with_follower i fs (s, f) = (s, λ j. if i == j then f else fs j)

  -- Exchanges with the peers of the list, one after the other.
  unfoldable pub serve : List ℕ → Group → Group
  unfolding exchange
  serve [] g = g
  serve (i ∷ is) (s, fs) =
      serve is (with_follower i fs (exchange storage codec now ms majority i count h l (s, fs i)))

  serve-append : (is js : List ℕ) (g : Group) → serve (is ++ js) g ≡ serve js (serve is g)
  unfolding serve
  serve-append [] js g = refl
  serve-append (i ∷ is) js (s, fs) =
      serve-append is js
        (with_follower i fs (exchange storage codec now ms majority i count h l (s, fs i)))

  abbrev at : ℕ → ℕ → RaftState × Node D → RaftState × Node D
  at i k p = rounds storage codec now ms majority i count h l k p

  serve-repeat :
      (k i : ℕ) (s : RaftState) (fs : ℕ → Node D)
      → ((serve (repeat k i) (s, fs)).0 ≡ (at i k (s, fs i)).0)
        × ((serve (repeat k i) (s, fs)).1 i ≡ (at i k (s, fs i)).1)
        × ((j : ℕ) → i ≢ j → (serve (repeat k i) (s, fs)).1 j ≡ fs j)
  unfolding serve rounds
  serve-repeat zero i s fs = (refl, refl, λ j other. refl)
  serve-repeat (suc k) i s fs =
      let p = exchange storage codec now ms majority i count h l (s, fs i) in
      let fs' : ℕ → Node D = λ j. if i == j then p.1 else fs j in
      let here : fs' i ≡ p.1 = rw ((==_iff i i).1 refl) refl in
      let (state, own, rest) = serve-repeat k i p.0 fs' in
      (
        state ∙ ap (λ f. (at i k (p.0, f)).0) here,
        own ∙ ap (λ f. (at i k (p.0, f)).1) here,
        λ j other. rest j other ∙ ap (λ b. if b then p.1 else fs j) (apart i j other),
      )

  -- The followers at the `n` places behind `i` can be brought up to date.
  abbrev pub AreReady : ℕ → ℕ → Group → Type 0
  AreReady i n g =
      (j : ℕ)
      → i < j
      → j ≤ i + n
      → (next : ℕ) × (matched : ℕ) × Between j h l next matched (g.0, g.1 j)
        × (1 ≤ next)
        × (next ≤ last_index l)

  -- They are, and the leader knows it.
  abbrev pub AreCaughtUp : ℕ → ℕ → Group → Type 0
  AreCaughtUp i n g =
      (j : ℕ)
      → i < j
      → j ≤ i + n
      → Tracks j (last_index l + 1) (last_index l) h.term g.0
        × AgreeUpTo l (g.1 j).log (last_index l)

  -- Nothing of the places up to `i` is touched.
  pub record Untouched (i : ℕ) (g g' : Group) : Type 0 where
    pub keeps : Keeps g.0 g'.0
    pub tracks : (j n m : ℕ) → j ≤ i → Tracks j n m h.term g.0 → Tracks j n m h.term g'.0
    pub same : (j : ℕ) → j ≤ i → g'.1 j ≡ g.1 j

  one_caught_up :
      (i next matched : ℕ) (s : RaftState) (fs : ℕ → Node D)
      → CanSend h l
      → Between i h l next matched (s, fs i)
      → 1 ≤ next
      → next ≤ last_index l
      → (is : List ℕ) × Tracks i (last_index l + 1) (last_index l) h.term (serve is (s, fs)).0
        × AgreeUpTo l ((serve is (s, fs)).1 i).log (last_index l)
        × Frame i h.term s (serve is (s, fs)).0
        × ((j : ℕ) → i ≢ j → (serve is (s, fs)).1 j ≡ fs j)
  one_caught_up i next matched s fs c b start end =
      let (k, few, there, kept) =
        rounds-CaughtUp storage codec now ms majority i count h l next matched s (fs i) c b start
          end in
      let (state, own, rest) = serve-repeat k i s fs in
      (repeat k i, rw state there.0, rw own there.1, rw state kept, rest)

  still_ready :
      (i n : ℕ) (s s' : RaftState) (fs fs' : ℕ → Node D)
      → AreReady i (suc n) (s, fs)
      → Frame (i + 1) h.term s s'
      → ((j : ℕ) → i + 1 ≢ j → fs' j ≡ fs j)
      → AreReady (i + 1) n (s', fs')
  still_ready i n s s' fs fs' ready kept rest j low high =
      let (next, matched, b, start, end) = ready j (omega arith) (omega arith) in
      let other : i + 1 ≢ j = λ e. omega arith in
      let there = rest j other in
      (
        next,
        matched,
        record {
          tracks = kept.others j next matched other b.tracks;
          low = rw there b.low;
          valid = rw there b.valid;
          matching = rw there b.matching;
          whole = rw there b.whole;
        },
        start,
        end,
      )

  joined :
      (i n : ℕ) (g g' q : Group)
      → Tracks (i + 1) (last_index l + 1) (last_index l) h.term g'.0
      → AgreeUpTo l (g'.1 (i + 1)).log (last_index l)
      → Frame (i + 1) h.term g.0 g'.0
      → ((j : ℕ) → i + 1 ≢ j → g'.1 j ≡ g.1 j)
      → AreCaughtUp (i + 1) n q
      → Untouched (i + 1) g' q
      → AreCaughtUp i (suc n) q × Untouched i g q
  joined i n g g' q tracks agree kept rest done left = (
    λ j low high. elim (le-or-lt j (i + 1)) [
      | inr later ↦ done j later (omega arith)
      | inl here ↦
          (let e : j ≡ i + 1 = omega arith in
            rw e (
              left.tracks (i + 1) _ _ (omega arith) tracks,
              rw (left.same (i + 1) (omega arith)) agree,
            ))
    ],
    record {
      keeps = record {
        role = left.keeps.role ∙ kept.keeps.role;
        persistent = left.keeps.persistent ∙ kept.keeps.persistent;
        volatile = left.keeps.volatile ∙ kept.keeps.volatile;
      };
      tracks =
          λ j n m low t. left.tracks j n m (omega arith) (kept.others j n m (λ e. omega arith) t);
      same = λ j low. left.same j (omega arith) ∙ rest j (λ e. omega arith);
    },
  )

  -- Each of them can be brought up to date, one after the other.
  pub all_caught_up :
      (n i : ℕ) (g : Group)
      → CanSend h l
      → AreReady i n g
      → (is : List ℕ) × AreCaughtUp i n (serve is g) × Untouched i g (serve is g)
  unfolding serve
  all_caught_up zero i g c ready = (
    [],
    λ j low high. absurd (omega arith),
    record {
      keeps = record { role = refl; persistent = refl; volatile = refl };
      tracks = λ j n m low t. t;
      same = λ j low. refl;
    },
  )
  all_caught_up (suc n) i (s, fs) c ready =
      let (next, matched, b, start, end) = ready (i + 1) (omega arith) (omega arith) in
      let (is, tracks, agree, kept, rest) = one_caught_up (i + 1) next matched s fs c b start end in
      let g' = serve is (s, fs) in
      let (js, done, left) =
        all_caught_up n (i + 1) g' c (still_ready i n s g'.0 fs g'.1 ready kept rest) in
      let (all, nothing) = joined i n (s, fs) g' (serve js g') tracks agree kept rest done left in
      let both = serve-append is js (s, fs) in (is ++ js, rw both all, rw both nothing)
