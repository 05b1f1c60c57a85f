-- ===== src/Service/State.antt =====
-- `GetNodeState` of service/service.go.
use elastos_ela_side_chain_t.Base.{ℕ, ℤ, Bytes, List, Bool, not, ◌==◌, map}

-- `PeerInfo` of service/types.go
pub record PeerInfo : Type 0 where
  pub net_address : Bytes
  pub services : Bytes
  pub relay_tx : Bool
  pub last_send : Bytes
  pub last_recv : Bytes
  pub conn_time : Bytes
  pub time_offset : ℤ
  pub version : ℕ
  pub inbound : Bool
  pub starting_height : ℕ
  pub last_block : ℕ
  pub last_ping_time : Bytes
  pub last_ping_micros : ℤ

-- `ServerInfo` of service/types.go
pub record ServerInfo : Type 0 where
  pub compile : Bytes
  pub height : ℕ
  pub version : ℕ
  pub services : Bytes
  pub port : ℕ
  pub rpc_port : ℕ
  pub neighbors : List PeerInfo

-- `peer.ToPeer().StatsSnapshot()`, a time as its text.
pub record StatsSnapshot : Type 0 where
  pub addr : Bytes
  pub services : ℕ
  pub relay_tx : ℕ
  pub last_send : Bytes
  pub last_recv : Bytes
  pub conn_time : Bytes
  pub time_offset : ℤ
  pub version : ℕ
  pub inbound : Bool
  pub starting_height : ℕ
  pub last_block : ℕ
  pub last_ping_time : Bytes
  pub last_ping_micros : ℤ

-- The configuration, and what the server and the chain say: the connected peers, the services, the
-- best height; `ServiceFlag.String`, `pact.DPOSStartVersion`.
pub record NodeConfig : Type 0 where
  pub compile : Bytes
  pub node_port : ℕ
  pub rpc_port : ℕ
  pub connected_peers : List StatsSnapshot
  pub server_services : Bytes
  pub best_height : ℕ
  pub service_flag_string : ℕ → Bytes
  pub dpos_start_version : ℕ

unfoldable pub peer_info : NodeConfig → StatsSnapshot → PeerInfo
peer_info cfg snap = record {
  net_address = snap.addr;
  services = cfg.service_flag_string snap.services;
  relay_tx = not (snap.relay_tx == 0);
  last_send = snap.last_send;
  last_recv = snap.last_recv;
  conn_time = snap.conn_time;
  time_offset = snap.time_offset;
  version = snap.version;
  inbound = snap.inbound;
  starting_height = snap.starting_height;
  last_block = snap.last_block;
  last_ping_time = snap.last_ping_time;
  last_ping_micros = snap.last_ping_micros;
}

-- `GetNodeState`
unfoldable pub get_node_state : NodeConfig → ServerInfo
unfolding peer_info
get_node_state cfg = record {
  compile = cfg.compile;
  height = cfg.best_height;
  version = cfg.dpos_start_version;
  services = cfg.server_services;
  port = cfg.node_port;
  rpc_port = cfg.rpc_port;
  neighbors = map (peer_info cfg) cfg.connected_peers;
}
