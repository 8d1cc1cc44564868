-- ===== src/Net/Resend.antt =====
-- A connection request that the loop of antarc/src/client.rs sends again.
use antarc.Protocol.{Protocol}
use antarc.Peers.{next_sequence}
use antarc.Packets.Message.{ConnectionRequest}
use antarc.Packets.Delivery.{Sent, Duration, ToSend}
use antarc.Packets.Packet.{Packet, sent}
use antarc.Shared.{List, sym, [], ◌∷◌, ◌++◌, none, ◌≡◌, ap, ◌∙◌}
use antarc.Shared.HashMap.{get, get-remove_self}
use antarc.Base.Results.{ok, >>=-eq-ok, ok-injective, unwrap}
use antarc.Client
use antarc.Client.Handle
use antarc.Client.{client_reliability, Client, sent_connection_request}
use antarc.Packets.Encode.{connection_request_encoder}
use antarc.Net.ClientLoop

-- What `sent_connection_request` leaves: no peer is requesting at the address, and the packet is
-- the last of those that were sent.
pub sent_connection_request_lem :
    (c c' : Client) (packet : Packet ToSend ConnectionRequest) (time ttl : Duration)
    → sent_connection_request c packet time ttl ≡ ok c'
    → (get packet.delivery.meta.address c'.requesting_connection ≡ none)
      × (c'.reliability_handler.service.list_sent_connection_request
          ≡ c.reliability_handler.service.list_sent_connection_request
            ++ (sent packet time ttl ∷ []))
unfolding sent_connection_request sent
sent_connection_request_lem c c' packet time ttl returns =
    let address = packet.delivery.meta.address in
    let (peer, found, rest) = >>=-eq-ok (unwrap (get address c.requesting_connection)) _ returns in
    let (peer', moved, answer) = >>=-eq-ok (next_sequence peer) _ rest in
    let same = ok-injective answer in
    (
      ap (λ (x : Client). get address x.requesting_connection) (sym same)
          ∙ get-remove_self address c.requesting_connection,
      ap (λ (x : Client). x.reliability_handler.service.list_sent_connection_request) (sym same),
    )

-- The protocol of a client after a connection request was taken from the list of those sent.
abbrev after_retry : Protocol Client → List (Packet Sent ConnectionRequest) → Protocol Client
after_retry p rest = record p {
  service = record p.service {
    reliability_handler = record p.service.reliability_handler {
      service = record { list_sent_connection_request = rest };
    };
  };
}
