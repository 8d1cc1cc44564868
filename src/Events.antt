-- ===== src/Events.antt =====
-- antarc-protocol/src/events.rs
use antarc.Base.Errors.{ProtocolError, SocketAddr}
use antarc.Packets.Message.{ConnectionId, Payload}

pub data ProtocolEvent (S : Type 0) : Type 0 where
  fail : ProtocolError → ProtocolEvent S
  data_transfer : (connection_id : ConnectionId) (payload : Payload) → ProtocolEvent S
  service_event : S → ProtocolEvent S

pub data ServerEvent : Type 0 where
  connection_request : (connection_id : ConnectionId) (remote : SocketAddr) → ServerEvent

pub data ClientEvent : Type 0 where
  connection_accepted : (connection_id : ConnectionId) → ClientEvent
