-- ===== src/Raft/Log.antt =====
-- server-rust/src/raft/log.rs: the in-memory log, whose entries follow a snapshot boundary.
-- A method that takes `&mut self` returns the new store.
pub mod Valid
pub mod View
pub mod Last
use macro_service.Prelude.{
  ℕ, ◌+◌, ◌-◌, Bool, true, false, ◌||◌, Option, none, some, List, [], ◌∷◌, ◌++◌, add64, ltb, leb,
  ◌==◌, if◌then◌else◌, length, is_empty, get_elem?, take, drop, retain,
}

pub record LogEntry : Type 0 where
  pub term : ℕ
  pub index : ℕ
  pub command : List ℕ

-- `LogEntry::new`
abbrev pub new_entry : ℕ → ℕ → List ℕ → LogEntry
new_entry term index command = record { term = term; index = index; command = command }

-- `LogEntry::no_op`
abbrev pub no_op : ℕ → ℕ → LogEntry
no_op term index = record { term = term; index = index; command = [] }

pub record LogStore : Type 0 where
  pub entries : List LogEntry
  pub snapshot_last_index : ℕ
  pub snapshot_last_term : ℕ

-- `LogStore::new`
abbrev pub new : LogStore
new = record { entries = []; snapshot_last_index = 0; snapshot_last_term = 0 }

abbrev pub from_entries : List LogEntry → LogStore
from_entries entries = record { entries = entries; snapshot_last_index = 0; snapshot_last_term = 0 }

abbrev pub from_snapshot : ℕ → ℕ → LogStore
from_snapshot index term = record {
  entries = [];
  snapshot_last_index = index;
  snapshot_last_term = term;
}

unfoldable pub last_index : LogStore → ℕ
last_index l =
    if is_empty l.entries
    then l.snapshot_last_index
    else add64 l.snapshot_last_index (length l.entries)

-- `self.entries.last().map(|e| e.term).unwrap_or(0)`
unfoldable pub last_entry_term : List LogEntry → ℕ
last_entry_term [] = 0
last_entry_term (e ∷ []) = e.term
last_entry_term (e ∷ f ∷ es) = last_entry_term (f ∷ es)

unfoldable pub last_term : LogStore → ℕ
unfolding last_entry_term
last_term l = if is_empty l.entries then l.snapshot_last_term else last_entry_term l.entries

unfoldable pub get : LogStore → ℕ → Option LogEntry
get l index =
    if leb index l.snapshot_last_index
    then none
    else (let local_index = index - l.snapshot_last_index in
        if local_index == 0 || ltb (length l.entries) local_index
        then none
        else get_elem? l.entries (local_index - 1))

unfoldable pub append : LogStore → List LogEntry → LogStore
append l entries = record l { entries = l.entries ++ entries }

-- The new store, and the index that the method returns.
unfoldable pub append_one : LogStore → LogEntry → LogStore × ℕ
append_one l entry = (record l { entries = l.entries ++ entry ∷ [] }, entry.index)

unfoldable pub truncate : LogStore → ℕ → LogStore
truncate l from_index =
    if leb from_index l.snapshot_last_index
    then record l { entries = [] }
    else (let local_from = from_index - l.snapshot_last_index in
        if local_from == 0
        then record l { entries = [] }
        else record l { entries = take (local_from - 1) l.entries })

unfoldable pub entries_from : LogStore → ℕ → List LogEntry
entries_from l start_index =
    if leb start_index l.snapshot_last_index
    then []
    else (let local_start = start_index - l.snapshot_last_index in
        if local_start == 0 || ltb (length l.entries) local_start
        then []
        else drop (local_start - 1) l.entries)

-- The `match` on the entry at `prev_log_index`.
abbrev pub has_term : Option LogEntry → ℕ → Bool
has_term (some entry) term = entry.term == term
has_term none term = false

unfoldable pub match_entry : LogStore → ℕ → ℕ → Bool
match_entry l prev_log_index prev_log_term =
    if prev_log_index == 0
    then true
    else if prev_log_index == l.snapshot_last_index
    then prev_log_term == l.snapshot_last_term
    else has_term (get l prev_log_index) prev_log_term

unfoldable pub apply_snapshot : LogStore → ℕ → ℕ → LogStore
unfolding retain
apply_snapshot l last_included_index last_included_term = record {
  entries = retain (λ e. ltb last_included_index e.index) l.entries;
  snapshot_last_index = last_included_index;
  snapshot_last_term = last_included_term;
}

unfoldable pub should_snapshot : LogStore → ℕ → Bool
should_snapshot l threshold = leb threshold (length l.entries)
