-- ===== src/Raft/Log/Last.antt =====
-- log.rs: the end of a log that one entry was appended to.
use macro_service.Prelude.{
  suc, ◌+◌, ◌-◌, ◌<◌, ◌≡◌, ◌∙◌, refl, some, [], ◌∷◌, arith, u64_mod, lt→leb,
}
use macro_service.Raft.Log.{LogEntry, LogStore, last_index, get, append, append_one}
use macro_service.Raft.Log.Valid.{IsValid}
use macro_service.Raft.Log.View.{get-append, last_index-append}

pub append_one_end :
    (l : LogStore) (e : LogEntry)
    → IsValid l
    → e.index ≡ suc (last_index l)
    → suc (last_index l) < u64_mod
    → (last_index (append_one l e).0 ≡ last_index l + 1)
      × (get (append_one l e).0 (last_index l + 1) ≡ some e)
unfolding append_one
append_one_end l e v numbered room =
    let place : last_index l + 1 - last_index l - 1 ≡ 0 = omega arith in
    unfold append in
    (
      last_index-append l (e ∷ []) v (numbered, tt) (omega arith),
      get-append l (e ∷ []) (last_index l + 1) v
          ∙ rw (lt→leb (last_index l + 1) (last_index l) (omega arith), place) refl,
    )
