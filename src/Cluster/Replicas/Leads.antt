-- ===== src/Cluster/Replicas/Leads.antt =====
-- The histories of the leaders where one is elected or takes a command.
use macro_service.Prelude.{
  ℕ, suc, ◌+◌, ◌-◌, ◌≤◌, ◌<◌, ◌≡◌, ◌≢◌, refl, sym, ap, ◌∙◌, true, some, [], ◌∷◌, arith, u64_mod,
  le-or-lt, inl, inr, leb, le→leb, ◌==◌, if◌then◌else◌, Bool-cases, ==_iff, get_elem?,
  get_elem?-none,
}
use macro_service.Raft.Log.{LogEntry, LogStore, last_index, get, append, append_one}
use macro_service.Raft.Log.Valid.{append_one-IsValid}
use macro_service.Raft.Log.View.{get-append, range_of_get}
use macro_service.Cluster.{has_won}
use macro_service.Raft.State.{PersistentState, follower, candidate, leader}
use macro_service.Raft.State.Advances.{Advances}
use macro_service.Cluster.Memory.{ballot}
use macro_service.Cluster.Replicas.History.{History, Winners, Follows, Grows}

abbrev pub extended : History → ℕ → LogStore → History
extended history term l t = if t == term then l else history t

pub leader-candidate : leader ≢ candidate
leader-candidate e = cc

pub follower-leader : follower ≢ leader
follower-leader e = cc

pub follower-candidate : follower ≢ candidate
follower-candidate e = cc

-- No vote was given in a term to come.
pub fresh_term : (p : PersistentState) (c : ℕ) → ¬ Advances (ballot (p.current_term + 1) c) p
fresh_term p c h = ground arith

pub has_won-here : (t c : ℕ) (won : Winners) → has_won ((t, c) ∷ won) t c ≡ true
has_won-here t c won = ground arith

pub has_won-later :
    (t c : ℕ) (won : Winners) (u d : ℕ) → has_won won u d ≡ true → has_won ((t, c) ∷ won) u d ≡ true
has_won-later t c won u d w = ground (arith, w)

pub extended-here :
    (history : History) (t u : ℕ) (l : LogStore) → u ≡ t → extended history t l u ≡ l
extended-here history t u l e = ground arith

pub extended-elsewhere :
    (history : History) (t u : ℕ) (l : LogStore) → u ≢ t → extended history t l u ≡ history u
extended-elsewhere history t u l e = ground arith

-- A term has one winner.
abbrev pub IsSafe : Winners → Type 0
IsSafe won = (t c d : ℕ) → has_won won t c ≡ true → has_won won t d ≡ true → c ≡ d

-- The log of a new leader, in a term that had none.
pub elected-Grows :
    (won : Winners) (history : History) (t c : ℕ) (l : LogStore)
    → ((d : ℕ) → has_won won t d ≢ true)
    → Grows won ((t, c) ∷ won) history (extended history t l)
elected-Grows won history t c l first = record {
  winners = λ u d w. ground (arith, w);
  kept = λ u d i e w h j le. elim (Bool-cases (u == t)) [
    | inr other ↦ rw other refl
    | inl same ↦ absurd (first d (ap (λ v. has_won won v d) (sym ((==_iff u t).0 same)) ∙ w))
  ];
}

-- The leader's new entry.
module _ (won : Winners) (history : History) (l : LogStore) (e : LogEntry) (c : ℕ)
    (fl : Follows won history l) (leads : l ≡ history e.term)
    (elected : has_won won e.term c ≡ true) (numbered : e.index ≡ suc (last_index l))
    (room : suc (last_index l) < u64_mod) where
  abbrev longer : LogStore
  longer = (append_one l e).0

  get-longer :
      (i : ℕ)
      → get longer i
        ≡ (if leb i (last_index l) then get l i else get_elem? (e ∷ []) (i - last_index l - 1))
  unfolding append_one append
  get-longer i = get-append l (e ∷ []) i fl.valid

  old : (i : ℕ) → i ≤ last_index l → get longer i ≡ get l i
  old i le = rw (get-longer i, le→leb i (last_index l) le) refl

  new : (i : ℕ) (x : LogEntry) → last_index l < i → get longer i ≡ some x → x ≡ e
  new i x above here = elim (le-or-lt i (last_index l + 1)) [
    | inl next ↦
        let place : i - last_index l - 1 ≡ 0 = omega arith in
        let there = get-longer i in ground (arith, there, place)
    | inr beyond ↦
        absurd (ground (arith, get-longer i, get_elem?-none (e ∷ []) (i - last_index l - 1)))
  ]

  pub append_one-Grows : Grows won won history (extended history e.term longer)
  append_one-Grows = record {
    winners = λ t d w. w;
    kept = λ t d i x w here j le. elim (Bool-cases (t == e.term)) [
      | inr other ↦ rw other refl
      | inl same ↦
          let own : history t ≡ l = ap history ((==_iff t e.term).0 same) ∙ sym leads in
          let (low, high) =
            range_of_get l i {e = x} fl.valid (ap (λ m. get m i) (sym own) ∙ here) in
          rw same (ap (λ m. get m j) own ∙ sym (old j (omega arith)))
    ];
  }

  snapshot-longer : longer.snapshot_last_index ≡ 0
  unfolding append_one
  snapshot-longer = fl.snapshot

  pub append_one-Follows : Follows won (extended history e.term longer) longer
  append_one-Follows = record {
    snapshot = snapshot-longer;
    valid = append_one-IsValid l e fl.valid numbered room;
    origin = λ i x here. elim (le-or-lt i (last_index l)) [
      | inl within ↦
          let before = sym (old i within) ∙ here in
          let ((d, w), was) = fl.origin i x before in
          let there = sym (was i (omega arith)) ∙ before in
          (
            (d, w),
            λ j le.
                old j (omega arith) ∙ (was j le ∙ append_one-Grows.kept x.term d i x w there j le),
          )
      | inr above ↦
          let term = ap (λ y. y.term) (new i x above here) in
          (
            (c, ap (λ t. has_won won t c) term ∙ elected),
            λ j le. ap (λ m. get m j) (sym (extended-here history e.term x.term longer term)),
          )
    ];
  }
