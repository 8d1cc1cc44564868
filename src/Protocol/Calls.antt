-- ===== src/Protocol/Calls.antt =====
-- The methods of `Protocol<Server>` in antarc-protocol/src/server.rs and of `Protocol<Client>` in
-- antarc-protocol/src/client.rs that call the service and no more, and the `drain_` methods of the two
-- services, over the whole range.
use antarc.Packets.Message.{ConnectionRequest, ConnectionAccepted}
use antarc.Events.{ClientEvent, ServerEvent, ProtocolEvent}
use antarc.Base.Results.{ok, ◌>>=◌, done, failed, Reply, Result}
use antarc.Packets.Scheduled.{Reliable, Scheduled}
use antarc.Packets.Delivery.{ToSend, Duration}
use antarc.Shared.{[], Option, List}
use antarc.Packets.Packet.{Packet, RawPacket}
use antarc.Server.{Server, retry_reliable_connection_accepted, create_connection_accepted}
use antarc.Protocol.{Protocol}
use antarc.Client.{resend_reliable_connection_request, create_connection_request, Client}
use antarc.Base.Words.{Build}
use antarc.Server.Poll
use antarc.Client.Handle

-- `Protocol::<Server>::create_connection_accepted`
unfoldable pub create_accepted :
    Protocol Server
    → Scheduled Reliable ConnectionAccepted
    → Duration
    → Result (Packet ToSend ConnectionAccepted)
unfolding create_connection_accepted
create_accepted p scheduled time = create_connection_accepted p.service scheduled time

-- `Server::drain_connection_accepted`
unfoldable pub drain_connection_accepted :
    Server → Server × List (Scheduled Reliable ConnectionAccepted)
drain_connection_accepted s = (
  record s {
    scheduler = record s.scheduler { service = record { list_scheduled_connection_accepted = [] } };
  },
  s.scheduler.service.list_scheduled_connection_accepted,
)

-- `Protocol::<Server>::retry_reliable_connection_accepted`
unfoldable pub retry_accepted :
    Protocol Server
    → Duration
    → Result (Protocol Server × Option (Packet ToSend ConnectionAccepted))
unfolding retry_reliable_connection_accepted
retry_accepted p time = do
  (service, packet) ← retry_reliable_connection_accepted p.service time
  ok (record p { service = service }, packet)

-- `Protocol::<Server>::poll`
unfoldable pub server_poll :
    Protocol Server → Duration → Result (Protocol Server × List (ProtocolEvent ServerEvent))
unfolding Poll.poll
server_poll p time = do
  answer ← Poll.poll p.service time
  ok (record p { service = answer.0 }, answer.1)

-- `Protocol::<Client>::create_connection_request`
unfoldable pub create_request :
    Protocol Client
    → Scheduled Reliable ConnectionRequest
    → Duration
    → Result (Packet ToSend ConnectionRequest)
unfolding create_connection_request
create_request p scheduled time = create_connection_request p.service scheduled time

-- `Client::drain_connection_request`
unfoldable pub drain_connection_request :
    Client → Client × List (Scheduled Reliable ConnectionRequest)
drain_connection_request c = (
  record c {
    scheduler = record c.scheduler { service = record { list_scheduled_connection_request = [] } };
  },
  c.scheduler.service.list_scheduled_connection_request,
)

-- `Protocol::<Client>::resend_reliable_connection_request`
unfoldable pub resend_request :
    Protocol Client → Duration → Result (Protocol Client × Option (Packet ToSend ConnectionRequest))
unfolding resend_reliable_connection_request
resend_request p time = do
  (service, packet) ← resend_reliable_connection_request p.service time
  ok (record p { service = service }, packet)

-- `Protocol::<Client>::on_received`
unfoldable pub client_received :
    Build → Protocol Client → RawPacket → Duration → Reply (Protocol Client) (Unit {0})
unfolding Handle.on_received
client_received b p raw time = elim (Handle.on_received b p.service raw time) [
  | Reply.panicked ↦ Reply.panicked
  | failed service problem ↦ failed (record p { service = service }) problem
  | done service answer ↦ done (record p { service = service }) answer
]

-- `Protocol::<Client>::poll`
unfoldable pub client_poll :
    Protocol Client → Duration → Result (Protocol Client × List (ProtocolEvent ClientEvent))
unfolding Handle.poll
client_poll p time = do
  answer ← Handle.poll p.service time
  ok (record p { service = answer.0 }, answer.1)
