-- ===== src/Startup/Boot.antt =====
-- main.rs, lines 116-178: the cells that `main` makes for the tasks of a node, from its configuration
-- and its disk. The tasks share them; nothing is read from the snapshot on the disk into the store.
use macro_service.Prelude.{ℕ, [], map}
use macro_service.Config.{NodeConfig}
use macro_service.Raft.Storage.{Storage}
use macro_service.Raft.Timer.{new_timer, new_heartbeat}
use macro_service.Raft.Pending.{new_pending}
use macro_service.Kv.Store.{new_store}
use macro_service.Startup.{recover}
use macro_service.Startup.MainLoop.{Loop}

unfoldable pub boot : {D : Type 0} → Storage D → NodeConfig → ℕ → ℕ → D → Loop D
unfolding recover new_timer new_heartbeat
boot storage config now ms disk =
    let peers = map (λ p. p.id) config.peers in
    let (state, log) = recover storage config.node_id peers disk in
    record {
      node = record {
        state = state;
        log = log;
        disk = disk;
        timer = new_timer now ms;
        kv = new_store;
      };
      heartbeat = new_heartbeat 50 now;
      pending = new_pending;
      sent = [];
      woken = [];
    }
