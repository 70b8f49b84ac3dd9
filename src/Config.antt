-- ===== src/Config.antt =====
-- server-rust/src/config.rs: the configuration of a node. The clap crate reads the command line into
-- `CliConfig`. A text is the list of its code points. The addresses are on 127.0.0.1, so that a
-- `SocketAddr` is its port, and `parse` of it never fails.
pub mod Peers
use macro_service.Prelude.{
  ℕ, ◌+◌, ◌-◌, ◌*◌, ◌^◌, ◌%◌, ◌||◌, Option, none, some, List, [], ◌∷◌, ltb, ◌==◌, if◌then◌else◌,
  is_empty,
}

abbrev pub Text : Type 0
Text = List ℕ

pub record CliConfig : Type 0 where
  pub node_id : ℕ
  pub client_port : ℕ
  pub raft_port : ℕ
  pub peers : Text
  pub data_dir : Text
  pub snapshot_threshold : ℕ
  pub max_entries_per_append : ℕ
  pub metrics_port : Option ℕ

pub record Peer : Type 0 where
  pub id : ℕ
  pub raft_addr : Text

pub record NodeConfig : Type 0 where
  pub node_id : ℕ
  pub client_addr : ℕ
  pub raft_addr : ℕ
  pub peers : List Peer
  pub data_dir : Text
  pub snapshot_threshold : ℕ
  pub max_entries_per_append : ℕ
  pub metrics_addr : ℕ

abbrev push_front : ℕ → List Text → List Text
push_front c [] = (c ∷ []) ∷ []
push_front c (part ∷ parts) = (c ∷ part) ∷ parts

-- `str::split` at a character: one part more than there are separators.
unfoldable pub split : ℕ → Text → List Text
split sep [] = [] ∷ []
split sep (c ∷ cs) = let rest = split sep cs in if c == sep then [] ∷ rest else push_front c rest

-- The digits of `u32::from_str`, whose multiplication and addition are checked.
unfoldable pub scan : ℕ → Text → Option ℕ
scan n [] = some n
scan n (c ∷ cs) =
    let d = c - b'0' in
    let rest = scan (n * 10 + d) cs in
    if ltb c b'0' || ltb b'9' c then none else if ltb (n * 10 + d) (2 ^ 32) then rest else none

-- At least one digit.
unfoldable pub parse_digits : Text → Option ℕ
unfolding scan
parse_digits [] = none
parse_digits (c ∷ cs) = scan 0 (c ∷ cs)

-- `u32::from_str`, which takes a leading `+`.
unfoldable pub parse_u32 : Text → Option ℕ
unfolding parse_digits
parse_u32 [] = none
parse_u32 (c ∷ cs) = if c == b'+' then parse_digits cs else parse_digits (c ∷ cs)

abbrev with_addr : Text → Option ℕ → Option Peer
with_addr addr none = none
with_addr addr (some id) = some (record { id = id; raft_addr = addr })

-- The closure of `filter_map`, on the parts between the `@`s.
unfoldable pub peer_of : List Text → Option Peer
unfolding parse_u32
peer_of (id ∷ addr ∷ []) = with_addr addr (parse_u32 id)
peer_of _ = none

abbrev keep : Option Peer → List Peer → List Peer
keep none peers = peers
keep (some peer) peers = peer ∷ peers

unfoldable pub filter_peers : List Text → List Peer
unfolding peer_of split
filter_peers [] = []
filter_peers (s ∷ parts) = keep (peer_of (split b'@' s)) (filter_peers parts)

unfoldable pub peers_of : Text → List Peer
unfolding filter_peers split
peers_of text = if is_empty text then [] else filter_peers (split b',' text)

-- A `u16` addition, of which `as u16` keeps the low bits of the identifier.
unfoldable pub default_metrics_port : ℕ → ℕ
default_metrics_port node_id = (9090 + node_id % 2 ^ 16) % 2 ^ 16

abbrev port_or : ℕ → Option ℕ → ℕ
port_or default none = default
port_or default (some port) = port

-- `From<CliConfig>`
unfoldable pub from_cli : CliConfig → NodeConfig
unfolding peers_of default_metrics_port
from_cli cli = record {
  node_id = cli.node_id;
  client_addr = cli.client_port;
  raft_addr = cli.raft_port;
  peers = peers_of cli.peers;
  data_dir = cli.data_dir;
  snapshot_threshold = cli.snapshot_threshold;
  max_entries_per_append = cli.max_entries_per_append;
  metrics_addr = port_or (default_metrics_port cli.node_id) cli.metrics_port;
}
