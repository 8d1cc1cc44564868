-- ===== src/Net/FragmentSenders.antt =====
-- What `sent_fragment` of both services (server/service.rs and client/service.rs of
-- antarc-protocol/src) promises to the loops.
use antarc.Packets.Message.{Fragment}
use antarc.Packets.Delivery.{Duration, ToSend}
use antarc.Packets.Packet.{Packet}
use antarc.Shared.{ℕ, refl, some, ◌≡◌, ◌≢◌, ◌<◌, ◌+◌, ◌-◌, ◌==◌, if◌then◌else◌, arith}
use antarc.Shared.HashMap.{HashMap, get, insert, get-insert_self}
use antarc.Base.Results.{ok}
use antarc.Base.Words.{u32_mod, Build, checked_difference}
use antarc.Service.{server_service, client_service}
use antarc.Peers.{Peer, Connected, advance}
use antarc.Peers.Advance.{advance_found}
use antarc.Net.Transfers.{IsSent, sent_to}
use antarc.Net.Fragments.{FragmentSending}
use antarc.Net.Senders.{
  chain, ServerIsSettled, ClientIsSettled, connect_awaiting_settled, server_sending, client_sending,
}
use antarc.Server
use antarc.Server.{Server}
use antarc.Client
use antarc.Client.{Client}
use antarc.Packets.Scheduled.{ReliabilityType}

-- The index of the last fragment.
last_index : (b : Build) (total : ℕ) → 0 < total → checked_difference b 256 total 1 ≡ ok (total - 1)
unfolding checked_difference
last_index b total some_total = ground arith

module _ (packet : Packet ToSend Fragment) (connected : HashMap (Peer Connected)) where
  part_connected :
      packet.message.index ≢ packet.message.total - 1
      → (if packet.message.index == (packet.message.total - 1)
          then advance packet.message.connection_id connected
          else ok connected)
        ≡ ok connected
  part_connected other = ground arith

  last_connected :
      (peer : Peer Connected)
      → packet.message.index ≡ packet.message.total - 1
      → get packet.message.connection_id connected ≡ some peer
      → peer.sequence_tracker + 1 < u32_mod
      → (if packet.message.index == (packet.message.total - 1)
          then advance packet.message.connection_id connected
          else ok connected)
        ≡ ok (insert packet.message.connection_id (sent_to peer) connected)
  last_connected peer same found room =
      ground (arith, advance_found packet.message.connection_id connected peer found room)

server_part :
    (b : Build) (s : Server) (packet : Packet ToSend Fragment) (time : Duration)
    (reliability : ReliabilityType) (ttl : Duration) (peer : Peer Connected)
    → 0 < packet.message.total
    → packet.message.index ≢ packet.message.total - 1
    → ServerIsSettled s packet.delivery.meta.address
    → get packet.message.connection_id s.connected ≡ some peer
    → (s' : Server) × (Server.sent_fragment b s packet time reliability ttl ≡ ok s')
      × IsSent server_service ServerIsSettled packet.message.connection_id
          packet.delivery.meta.address s s' peer
unfolding Server.sent_fragment
server_part b s packet time ReliabilityType.reliable ttl peer some_total other settled found =
    chain (checked_difference b 256 packet.message.total 1) _ _
      (last_index b packet.message.total some_total)
      (chain _ _ _ (part_connected packet s.connected other)
        (_, refl, record { connected = found; settled = settled; scheduler = refl }))
server_part b s packet time ReliabilityType.unreliable ttl peer some_total other settled found =
    chain (checked_difference b 256 packet.message.total 1) _ _
      (last_index b packet.message.total some_total)
      (chain _ _ _ (part_connected packet s.connected other)
        (_, refl, record { connected = found; settled = settled; scheduler = refl }))

server_last :
    (b : Build) (s : Server) (packet : Packet ToSend Fragment) (time : Duration)
    (reliability : ReliabilityType) (ttl : Duration) (peer : Peer Connected)
    → 0 < packet.message.total
    → packet.message.index ≡ packet.message.total - 1
    → ServerIsSettled s packet.delivery.meta.address
    → get packet.message.connection_id s.connected ≡ some peer
    → peer.sequence_tracker + 1 < u32_mod
    → (s' : Server) × (Server.sent_fragment b s packet time reliability ttl ≡ ok s')
      × IsSent server_service ServerIsSettled packet.message.connection_id
          packet.delivery.meta.address s s'
          (sent_to peer)
unfolding Server.sent_fragment
server_last b s packet time ReliabilityType.reliable ttl peer some_total same settled found room =
    chain (checked_difference b 256 packet.message.total 1) _ _
      (last_index b packet.message.total some_total)
      (chain _ _ _ (last_connected packet s.connected peer same found room) (
        _,
        refl,
        record {
          connected = get-insert_self packet.message.connection_id (sent_to peer) s.connected;
          settled = settled;
          scheduler = refl;
        },
      ))
server_last b s packet time ReliabilityType.unreliable ttl peer some_total same settled found room =
    chain (checked_difference b 256 packet.message.total 1) _ _
      (last_index b packet.message.total some_total)
      (chain _ _ _ (last_connected packet s.connected peer same found room) (
        _,
        refl,
        record {
          connected = get-insert_self packet.message.connection_id (sent_to peer) s.connected;
          settled = settled;
          scheduler = refl;
        },
      ))

pub server-FragmentSending : (b : Build) → FragmentSending server_sending b
server-FragmentSending b = record { part_stays = server_part b; last_moves_on = server_last b }

client_part :
    (b : Build) (s : Client) (packet : Packet ToSend Fragment) (time : Duration)
    (reliability : ReliabilityType) (ttl : Duration) (peer : Peer Connected)
    → 0 < packet.message.total
    → packet.message.index ≢ packet.message.total - 1
    → ClientIsSettled s packet.delivery.meta.address
    → get packet.message.connection_id s.connected ≡ some peer
    → (s' : Client) × (Client.sent_fragment b s packet time reliability ttl ≡ ok s')
      × IsSent client_service ClientIsSettled packet.message.connection_id
          packet.delivery.meta.address s s' peer
unfolding Client.sent_fragment
client_part b s packet time ReliabilityType.reliable ttl peer some_total other settled found =
    rw
      (connect_awaiting_settled s packet.delivery.meta.address packet.message.connection_id time
        settled)
      (chain (checked_difference b 256 packet.message.total 1) _ _
        (last_index b packet.message.total some_total)
        (chain _ _ _ (part_connected packet s.connected other)
          (_, refl, record { connected = found; settled = settled; scheduler = refl })))
client_part b s packet time ReliabilityType.unreliable ttl peer some_total other settled found =
    rw
      (connect_awaiting_settled s packet.delivery.meta.address packet.message.connection_id time
        settled)
      (chain (checked_difference b 256 packet.message.total 1) _ _
        (last_index b packet.message.total some_total)
        (chain _ _ _ (part_connected packet s.connected other)
          (_, refl, record { connected = found; settled = settled; scheduler = refl })))

client_last :
    (b : Build) (s : Client) (packet : Packet ToSend Fragment) (time : Duration)
    (reliability : ReliabilityType) (ttl : Duration) (peer : Peer Connected)
    → 0 < packet.message.total
    → packet.message.index ≡ packet.message.total - 1
    → ClientIsSettled s packet.delivery.meta.address
    → get packet.message.connection_id s.connected ≡ some peer
    → peer.sequence_tracker + 1 < u32_mod
    → (s' : Client) × (Client.sent_fragment b s packet time reliability ttl ≡ ok s')
      × IsSent client_service ClientIsSettled packet.message.connection_id
          packet.delivery.meta.address s s'
          (sent_to peer)
unfolding Client.sent_fragment
client_last b s packet time ReliabilityType.reliable ttl peer some_total same settled found room =
    rw
      (connect_awaiting_settled s packet.delivery.meta.address packet.message.connection_id time
        settled)
      (chain (checked_difference b 256 packet.message.total 1) _ _
        (last_index b packet.message.total some_total)
        (chain _ _ _ (last_connected packet s.connected peer same found room) (
          _,
          refl,
          record {
            connected = get-insert_self packet.message.connection_id (sent_to peer) s.connected;
            settled = settled;
            scheduler = refl;
          },
        )))
client_last b s packet time ReliabilityType.unreliable ttl peer some_total same settled found room =
    rw
      (connect_awaiting_settled s packet.delivery.meta.address packet.message.connection_id time
        settled)
      (chain (checked_difference b 256 packet.message.total 1) _ _
        (last_index b packet.message.total some_total)
        (chain _ _ _ (last_connected packet s.connected peer same found room) (
          _,
          refl,
          record {
            connected = get-insert_self packet.message.connection_id (sent_to peer) s.connected;
            settled = settled;
            scheduler = refl;
          },
        )))

pub client-FragmentSending : (b : Build) → FragmentSending client_sending b
client-FragmentSending b = record { part_stays = client_part b; last_moves_on = client_last b }
