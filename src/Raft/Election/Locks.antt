-- ===== src/Raft/Election/Locks.antt =====
-- election.rs: the locks that `handle_request_vote` takes and gives up, one after the other.
use macro_service.Prelude.{Bool, true, false, ◌||◌, ◌&&◌, List, [], ◌∷◌, ◌++◌, ltb, if◌then◌else◌}
use macro_service.Raft.Messages.{VoteRequest}
use macro_service.Raft.Node.{Node}
use macro_service.Raft.Election.{adopt_term, grants_vote}

-- The cells behind an `RwLock` that the handler uses.
pub data Cell : Type 0 where
  state persistent log : Cell

pub data LockStep : Type 0 where
  read : Cell → LockStep
  write : Cell → LockStep
  give_up : Cell → LockStep

abbrev pub is_cell : Cell → Cell → Bool
is_cell state state = true
is_cell persistent persistent = true
is_cell log log = true
is_cell _ _ = false

-- The locks that a task holds, each with whether it is for writing.
abbrev pub Locks : Type 0
Locks = List (Cell × Bool)

abbrev pub holds : Cell → Locks → Bool
holds c [] = false
holds c ((d, writes) ∷ locks) = is_cell c d || holds c locks

abbrev pub holds_write : Cell → Locks → Bool
holds_write c [] = false
holds_write c ((d, writes) ∷ locks) = (is_cell c d && writes) || holds_write c locks

abbrev pub without : Cell → Locks → Locks
without c [] = []
without c ((d, writes) ∷ locks) =
    if is_cell c d then without c locks else ((d, writes) ∷ without c locks)

-- Whether a task that goes through these steps comes to a lock that it keeps from itself: a tokio
-- `RwLock` gives no lock of a cell while a write lock on it is held, and no write lock while any is.
abbrev pub waits_for_itself : Locks → List LockStep → Bool
waits_for_itself locks [] = false
waits_for_itself locks (read c ∷ steps) =
    holds_write c locks || waits_for_itself ((c, false) ∷ locks) steps
waits_for_itself locks (write c ∷ steps) =
    holds c locks || waits_for_itself ((c, true) ∷ locks) steps
waits_for_itself locks (give_up c ∷ steps) = waits_for_itself (without c locks) steps

-- A lock that is given up at once.
abbrev pub briefly : LockStep → Cell → List LockStep
briefly step c = step ∷ give_up c ∷ []

-- `drop(state.persistent.read())` drops a future that has not asked for its lock. The guard of the first
-- line is dropped in the branch of a vote only: the `let state` at the end hides it.
unfoldable pub vote_locks : {D : Type 0} → VoteRequest → Node D → List LockStep
vote_locks req n =
    let current_term = n.state.persistent.current_term in
    let s = adopt_term req.term n.state in
    write state ∷ briefly (read persistent) persistent
    ++ (briefly (read log) log
        ++ (if ltb req.term current_term
            then []
            else ((if ltb current_term req.term then briefly (write persistent) persistent else [])
                ++ (briefly (read persistent) persistent
                    ++ ((if grants_vote req s n.log
                          then briefly (write persistent) persistent
                            ++ (briefly (read persistent) persistent
                                ++ (briefly (read log) log ++ (give_up state ∷ [])))
                          else [])
                        ++ (read state ∷ read persistent ∷ []))))))
