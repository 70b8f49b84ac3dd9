-- ===== src/Raft/Rpc/Entries.antt =====
-- rpc.rs: what `append_entries` does to the log.
use macro_service.Prelude.{
  ℕ, suc, ◌+◌, ◌-◌, ◌≤◌, ◌<◌, ◌≡◌, List, [], ◌∷◌, arith, u64_mod, leb, if◌then◌else◌, length,
  get_elem?, ◌∙◌, ap, refl,
}
use macro_service.Raft.Log.{LogEntry, LogStore, last_index, get, truncate}
use macro_service.Raft.Log.Valid.{IsContiguous, IsValid, append-IsValid, truncate-IsValid}
use macro_service.Raft.Log.View.{get-truncate, get-append, last_index-truncate, last_index-append}
use macro_service.Raft.Rpc.{store_entries}

pub store_entries-nil : (l : LogStore) → store_entries [] l ≡ l
unfolding store_entries
store_entries-nil l = refl

pub snapshot-store_entries :
    (es : List LogEntry) (l : LogStore)
    → (store_entries es l).snapshot_last_index ≡ l.snapshot_last_index
unfolding store_entries
snapshot-store_entries [] l = refl
snapshot-store_entries (e ∷ es) l = ground arith

module _ (prev : ℕ) (l : LogStore) (v : IsValid l) (low : l.snapshot_last_index ≤ prev)
    (high : prev ≤ last_index l) where
  cut_at : (k : ℕ) → k ≡ suc prev → last_index (truncate l k) ≡ prev
  cut_at k e = omega (arith, last_index-truncate l k v (omega arith) (omega arith))

  -- Entries that start behind a consistent index, at or above the snapshot, leave a valid log.
  pub store_entries-IsValid :
      (es : List LogEntry)
      → IsContiguous (suc prev) es
      → prev + length es < u64_mod
      → IsValid (store_entries es l)
  unfolding store_entries
  store_entries-IsValid [] c r = v
  store_entries-IsValid (e ∷ es) c r =
      let cut = cut_at e.index c.0 in
      append-IsValid (truncate l e.index) (e ∷ es) (truncate-IsValid l e.index v) (rw cut c)
        (rw cut r)

  -- They replace everything behind that index, and nothing up to it.
  pub get-store_entries :
      (e : LogEntry) (es : List LogEntry) (i : ℕ)
      → IsContiguous (suc prev) (e ∷ es)
      → get (store_entries (e ∷ es) l) i
        ≡ (if leb i prev then get l i else get_elem? (e ∷ es) (i - prev - 1))
  unfolding store_entries
  get-store_entries e es i c =
      let cut = cut_at e.index c.0 in
      rw
        (
          get-append (truncate l e.index) (e ∷ es) i (truncate-IsValid l e.index v),
          cut,
          get-truncate l e.index i,
          c.0,
        )
        (ground arith)

  pub last_index-store_entries :
      (e : LogEntry) (es : List LogEntry)
      → IsContiguous (suc prev) (e ∷ es)
      → prev + length (e ∷ es) < u64_mod
      → last_index (store_entries (e ∷ es) l) ≡ prev + length (e ∷ es)
  unfolding store_entries
  last_index-store_entries e es c r =
      let cut = cut_at e.index c.0 in
      let grown =
        last_index-append (truncate l e.index) (e ∷ es) (truncate-IsValid l e.index v) (rw cut c)
          (rw cut r) in
      grown ∙ ap (λ k. k + suc (length es)) cut
