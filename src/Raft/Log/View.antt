-- ===== src/Raft/Log/View.antt =====
-- log.rs as a partial map from indices to entries: what each operation does to `get`.
use macro_service.Prelude.{
  ℕ, zero, suc, ◌+◌, ◌-◌, ◌≤◌, ◌<◌, ◌≡◌, inl, inr, none, some, List, [], ◌∷◌, arith, ltb, leb,
  if◌then◌else◌, get_elem?, drop, le-or-lt, lt→leb, get_elem?-take, get_elem?-drop,
  get_elem?-append, get_elem?-some, get_elem?-none, drop-nil, lt-length_of_some, min, max,
  length-take, length-append, length-drop, u64_mod, length,
}
use macro_service.Raft.Log.{
  LogEntry, LogStore, last_index, get, append, truncate, entries_from, apply_snapshot,
}
use macro_service.Raft.Log.Valid.{
  IsContiguous, IsValid, last_index-eq, retain-eq-drop, truncate-eq, truncate-IsValid,
  append-IsValid, apply_snapshot-IsValid,
}

-- The second guard of `get` only protects its subtraction.
pub get-eq :
    (l : LogStore) (i : ℕ)
    → get l i ≡ (
        if leb i l.snapshot_last_index
        then none
        else get_elem? l.entries (i - l.snapshot_last_index - 1))
unfolding get
get-eq l i = ground (arith, get_elem?-none {0} l.entries (i - l.snapshot_last_index - 1))

pub entries_from-eq :
    (l : LogStore) (i : ℕ)
    → entries_from l i
      ≡ (if leb i l.snapshot_last_index then [] else drop (i - l.snapshot_last_index - 1) l.entries)
unfolding entries_from
entries_from-eq l i = ground (arith, drop-nil {0} l.entries (i - l.snapshot_last_index - 1))

-- An entry stands at exactly the indices above the snapshot, up to `last_index`.
pub get-some :
    (l : LogStore) (i : ℕ)
    → IsValid l
    → l.snapshot_last_index < i
    → i ≤ last_index l
    → (e : LogEntry) × (get l i ≡ some e)
get-some l i v low high =
    rw (get-eq, lt→leb i l.snapshot_last_index low)
      (get_elem?-some l.entries (i - l.snapshot_last_index - 1) (omega (arith, last_index-eq l v)))

pub range_of_get :
    (l : LogStore) (i : ℕ) {e : LogEntry}
    → IsValid l
    → get l i ≡ some e
    → (l.snapshot_last_index < i) × (i ≤ last_index l)
range_of_get l i {e} v h = elim (le-or-lt i l.snapshot_last_index) [
  | inl low ↦ absurd (ground (arith, get-eq l i))
  | inr high ↦ (
    high,
    omega (
      arith,
      last_index-eq l v,
      lt-length_of_some l.entries (i - l.snapshot_last_index - 1) {x = e}
          (ground (arith, get-eq l i)),
    ),
  )
]

pub get-none : (l : LogStore) (i : ℕ) → IsValid l → last_index l < i → get l i ≡ none
get-none l i v h = ground (
  arith,
  get-eq l i,
  last_index-eq l v,
  get_elem?-none {0} l.entries (i - l.snapshot_last_index - 1),
)

index-get_elem? :
    (n i : ℕ) (es : List LogEntry) {e : LogEntry}
    → IsContiguous n es
    → get_elem? es i ≡ some e
    → e.index ≡ n + i
index-get_elem? n i [] c h = cc
index-get_elem? n zero (x ∷ es) c h = ground (arith, c.0)
index-get_elem? n (suc i) (x ∷ es) c h = omega (arith, index-get_elem? (suc n) i es c.1 h)

-- The entry found at an index carries that index.
pub index-get : (l : LogStore) (i : ℕ) {e : LogEntry} → IsValid l → get l i ≡ some e → e.index ≡ i
index-get l i {e} v h = elim (le-or-lt i l.snapshot_last_index) [
  | inl low ↦ absurd (ground (arith, get-eq l i))
  | inr high ↦ omega (
    arith,
    index-get_elem? _ (i - l.snapshot_last_index - 1) l.entries {e = e} v.contiguous
        (ground (arith, get-eq l i)),
  )
]

-- After a truncation an index has its old entry if it lies below the cut, and none otherwise.
pub get-truncate :
    (l : LogStore) (k i : ℕ) → get (truncate l k) i ≡ (if ltb i k then get l i else none)
get-truncate l k i =
    rw (truncate-eq l k, get-eq, get-eq)
      (ground (
        arith,
        get_elem?-take {0} (k - l.snapshot_last_index - 1) l.entries
            (i - l.snapshot_last_index - 1),
      ))

-- On a valid log, after an append the old indices have their old entries, and the new entries stand
-- behind them in order.
pub get-append :
    (l : LogStore) (es : List LogEntry) (i : ℕ)
    → IsValid l
    → get (append l es) i
      ≡ (if leb i (last_index l) then get l i else get_elem? es (i - last_index l - 1))
unfolding append
get-append l es i v =
    rw (last_index-eq l v, get-eq, get-eq)
      (ground (arith, get_elem?-append {0} l.entries es (i - l.snapshot_last_index - 1)))

-- On a valid log, a snapshot that does not lie behind the old one hides the indices up to its own and
-- leaves the entries above it.
pub get-apply_snapshot :
    (l : LogStore) (n t i : ℕ)
    → IsValid l
    → l.snapshot_last_index ≤ n
    → get (apply_snapshot l n t) i ≡ (if leb i n then none else get l i)
unfolding apply_snapshot
get-apply_snapshot l n t i v h =
    let d = n - l.snapshot_last_index in
    let e = retain-eq-drop (suc l.snapshot_last_index) n d l.entries (omega arith) v.contiguous in
    rw (get-eq, get-eq, e) (ground (arith, get_elem?-drop {0} d l.entries (i - n - 1)))

-- The entries from an index on are those that `get` gives, one after the other; at or below the
-- snapshot there are none.
pub get-entries_from :
    (l : LogStore) (start j : ℕ)
    → get_elem? (entries_from l start) j
      ≡ (if leb start l.snapshot_last_index then none else get l (start + j))
get-entries_from l start j =
    rw (entries_from-eq, get-eq)
      (ground (arith, get_elem?-drop {0} (start - l.snapshot_last_index - 1) l.entries j))

size-truncate :
    (l : LogStore) (k : ℕ)
    → (truncate l k).snapshot_last_index + length (truncate l k).entries
      ≡ l.snapshot_last_index + min (k - l.snapshot_last_index - 1) (length l.entries)
size-truncate l k =
    rw (truncate-eq l k) (omega (arith, length-take (k - l.snapshot_last_index - 1) l.entries))

pub last_index-truncate :
    (l : LogStore) (k : ℕ)
    → IsValid l
    → l.snapshot_last_index < k
    → k ≤ last_index l + 1
    → last_index (truncate l k) + 1 ≡ k
last_index-truncate l k v low high =
    let v' = truncate-IsValid l k v in
    omega (arith, last_index-eq l v, last_index-eq (truncate l k) v', size-truncate l k)

size-append :
    (l : LogStore) (es : List LogEntry)
    → (append l es).snapshot_last_index + length (append l es).entries
      ≡ l.snapshot_last_index + length l.entries + length es
unfolding append
size-append l es = omega (arith, length-append l.entries es)

pub last_index-append :
    (l : LogStore) (es : List LogEntry)
    → IsValid l
    → IsContiguous (suc (last_index l)) es
    → last_index l + length es < u64_mod
    → last_index (append l es) ≡ last_index l + length es
last_index-append l es v c r =
    let v' = append-IsValid l es v c r in
    omega (arith, last_index-eq l v, last_index-eq (append l es) v', size-append l es)

size-apply_snapshot :
    (l : LogStore) (n t : ℕ)
    → IsValid l
    → l.snapshot_last_index ≤ n
    → (apply_snapshot l n t).snapshot_last_index + length (apply_snapshot l n t).entries
      ≡ n + (length l.entries - (n - l.snapshot_last_index))
unfolding apply_snapshot
size-apply_snapshot l n t v h =
    let d = n - l.snapshot_last_index in
    rw (retain-eq-drop (suc l.snapshot_last_index) n d l.entries (omega arith) v.contiguous)
      (omega (arith, length-drop d l.entries))

-- After a snapshot at `n` the last index is what it was, or `n` if that is more.
pub last_index-apply_snapshot :
    (l : LogStore) (n t : ℕ)
    → IsValid l
    → l.snapshot_last_index ≤ n
    → n < u64_mod
    → last_index (apply_snapshot l n t) ≡ max n (last_index l)
last_index-apply_snapshot l n t v h r =
    let v' = apply_snapshot-IsValid l n t v h r in
    omega (
      arith,
      last_index-eq l v,
      last_index-eq (apply_snapshot l n t) v',
      size-apply_snapshot l n t v h,
    )
