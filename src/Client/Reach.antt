-- ===== src/Client/Reach.antt =====
-- Runs of a client: the operations of antarc-protocol/src/client/service.rs in any order.
use antarc.Events.{ProtocolEvent, ClientEvent, fail}
use antarc.Reliability.{retry, poll_handler, ReliabilityHandler}
use antarc.Scheduler.{push, Scheduler}
use antarc.Shared.{Option, List, subst, sym, ◌≡◌, ◌⊎◌, refl, inl, inr}
use antarc.Shared.HashMap.{get}
use antarc.Base.Errors.{SocketAddr, ProtocolError}
use antarc.Base.Results.{
  ok-injective, >>=-eq-ok, Result, ok, err, panic, Reply, done, failed, panicked, lift,
}
use antarc.Base.Words.{Build}
use antarc.Packets.Delivery.{Duration, PacketId, ToSend}
use antarc.Packets.Message.{ConnectionRequest, DataTransfer, Fragment, Heartbeat}
use antarc.Packets.Packet.{Packet, RawPacket}
use antarc.Packets.Scheduled.{ReliabilityType}
use antarc.Packets.Raw.{decode_for_client}
use antarc.Client.{
  client_reliability, ClientScheduler, ClientReliabilityHandler, Client, new_client, connect,
  sent_data_transfer, sent_fragment, sent_heartbeat, sent_connection_request,
  resend_reliable_connection_request,
}
use antarc.Client.Handle.{on_received, poll}
use antarc.Client.Invariant.{ClientInv, Retains, handle-Retains}
use antarc.Client.Asks.{connect-ClientInv}
use antarc.Client.Sends.{
  sent_data_transfer-ClientInv, sent_fragment-ClientInv, sent_heartbeat-ClientInv,
  sent_connection_request-ClientInv,
}

new_client-ClientInv : ClientInv new_client
unfolding new_client get
new_client-ClientInv = record {
  requesting_own = λ a p h. cc;
  awaiting_own = λ a p h. cc;
  apart = λ a. inl refl;
  fresh = λ k p h. cc;
  distinct = λ i j p q hi hj e. cc;
  peers_fit = tt;
}

-- The operations of a client, one at a time: each constructor is a call that returned.
pub data ClientStep (b : Build) (c d : Client) : Type 0 where
  connecting :
      (address : SocketAddr) (packet_id : PacketId) (time : Duration)
      → connect c address packet_id time ≡ done d tt
      → ClientStep b c d
  received :
      (raw : RawPacket) (time : Duration) → on_received b c raw time ≡ done d tt → ClientStep b c d
  refused :
      (raw : RawPacket) (time : Duration) (e : ProtocolError)
      → on_received b c raw time ≡ failed d e
      → ClientStep b c d
  request_sent :
      (packet : Packet ToSend ConnectionRequest) (time ttl : Duration)
      → sent_connection_request c packet time ttl ≡ ok d
      → ClientStep b c d
  data_sent :
      (packet : Packet ToSend DataTransfer) (time : Duration) (reliability : ReliabilityType)
      (ttl : Duration)
      → sent_data_transfer c packet time reliability ttl ≡ ok d
      → ClientStep b c d
  fragment_sent :
      (packet : Packet ToSend Fragment) (time : Duration) (reliability : ReliabilityType)
      (ttl : Duration)
      → sent_fragment b c packet time reliability ttl ≡ ok d
      → ClientStep b c d
  heartbeat_sent :
      (packet : Packet ToSend Heartbeat) (time : Duration) (reliability : ReliabilityType)
      (ttl : Duration)
      → sent_heartbeat c packet time reliability ttl ≡ ok d
      → ClientStep b c d
  resent :
      (time : Duration) (packet : Option (Packet ToSend ConnectionRequest))
      → resend_reliable_connection_request c time ≡ ok (d, packet)
      → ClientStep b c d
  polled :
      (now : Duration) (events : List (ProtocolEvent ClientEvent))
      → poll c now ≡ ok (d, events)
      → ClientStep b c d
  -- What `Protocol` does through `scheduler_mut` and `reliability_handler_mut`: `schedule`,
  -- `heartbeat`, the `drain_` and the `retry_` methods.
  scheduler_mut :
      (scheduler : Scheduler ClientScheduler)
      → record c { scheduler = scheduler } ≡ d
      → ClientStep b c d
  reliability_handler_mut :
      (handler : ReliabilityHandler ClientReliabilityHandler)
      → record c { reliability_handler = handler } ≡ d
      → ClientStep b c d
  -- The loop of antarc/src/client.rs tells the user of an error of `on_received`.
  reported :
      (problem : ProtocolError)
      → record c { api = push c.api (fail problem) } ≡ d
      → ClientStep b c d

lift-Retains :
    {A B : Type 0} (c : Client) (r : Result A) (f : A → Reply Client B)
    → ((a : A) → Retains c (f a))
    → (lift c r f ≡ panicked) ⊎ Retains c (lift c r f)
lift-Retains c (ok a) f k = inr (k a)
lift-Retains c (err e) f k = inr refl
lift-Retains c panic f k = inl refl

-- A datagram keeps the invariant or leaves the client as it was; the only panic is in decoding it.
on_received-Retains :
    (b : Build) (c : Client) (raw : RawPacket) (time : Duration)
    → ClientInv c
    → (on_received b c raw time ≡ panicked) ⊎ Retains c (on_received b c raw time)
unfolding on_received
on_received-Retains b c raw time inv =
    lift-Retains c (decode_for_client b raw time) _ (λ decoded. handle-Retains c decoded time inv)

-- A poll that returns leaves the tables alone.
poll-ClientInv :
    (c d : Client) (now : Duration) (events : List (ProtocolEvent ClientEvent))
    → poll c now ≡ ok (d, events)
    → ClientInv c
    → ClientInv d
unfolding poll
poll-ClientInv c d now events returns inv =
    let (handler, e, rest) = >>=-eq-ok (poll_handler c.reliability_handler now) _ returns in
    subst (λ (a : Client × List (ProtocolEvent ClientEvent)). ClientInv a.0) (ok-injective rest) inv

-- A retry leaves the tables alone.
resent-ClientInv :
    (c d : Client) (time : Duration) (packet : Option (Packet ToSend ConnectionRequest))
    → resend_reliable_connection_request c time ≡ ok (d, packet)
    → ClientInv c
    → ClientInv d
unfolding resend_reliable_connection_request
resent-ClientInv c d time packet returns inv =
    let (answer, e, rest) =
      >>=-eq-ok (retry c.reliability_handler.service.list_sent_connection_request time) _ returns in
    subst (λ (a : Client × Option (Packet ToSend ConnectionRequest)). ClientInv a.0)
      (ok-injective rest) inv

pub ClientStep-Inv : (b : Build) {c d : Client} → ClientStep b c d → ClientInv c → ClientInv d
ClientStep-Inv b {c} {d} (connecting address packet_id time e) inv =
    connect-ClientInv c d address packet_id time inv e
ClientStep-Inv b {c} {d} (received raw time e) inv = elim (on_received-Retains b c raw time inv) [
  | inl p ↦ cc
  | inr k ↦ rw e at k
]
ClientStep-Inv b {c} {d} (refused raw time x e) inv = elim (on_received-Retains b c raw time inv) [
  | inl p ↦ cc
  | inr k ↦
      let same : Retains {A = Unit {0}} c (failed d x) = rw e at k in subst ClientInv (sym same) inv
]
ClientStep-Inv b {c} (request_sent packet time ttl e) inv =
    sent_connection_request-ClientInv c time ttl inv packet _ e
ClientStep-Inv b {c} (data_sent packet time reliability ttl e) inv =
    sent_data_transfer-ClientInv c time ttl inv packet reliability _ e
ClientStep-Inv b {c} (fragment_sent packet time reliability ttl e) inv =
    sent_fragment-ClientInv c time ttl inv b packet reliability _ e
ClientStep-Inv b {c} (heartbeat_sent packet time reliability ttl e) inv =
    sent_heartbeat-ClientInv c time ttl inv packet reliability _ e
ClientStep-Inv b {c} {d} (resent time packet e) inv = resent-ClientInv c d time packet e inv
ClientStep-Inv b {c} {d} (polled now events e) inv = poll-ClientInv c d now events e inv
ClientStep-Inv b (scheduler_mut scheduler e) inv = subst ClientInv e inv
ClientStep-Inv b (reliability_handler_mut handler e) inv = subst ClientInv e inv
ClientStep-Inv b (reported problem e) inv = subst ClientInv e inv

pub data ClientReach (b : Build) : Client → Type 0 where
  start : ClientReach b new_client
  next : {c d : Client} → ClientReach b c → ClientStep b c d → ClientReach b d

-- On every run of a client, in every order of its operations, the invariant of the tables holds: a
-- peer that requests a connection or awaits an ack is at its own address, no address is in two
-- tables, no two connected peers share an address, a connected peer carries its own id, and the
-- groups of fragments fit.
pub ClientReach-Inv : (b : Build) {c : Client} → ClientReach b c → ClientInv c
ClientReach-Inv b start = new_client-ClientInv
ClientReach-Inv b (next r step) = ClientStep-Inv b step (ClientReach-Inv b r)
