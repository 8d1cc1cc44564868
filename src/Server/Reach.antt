-- ===== src/Server/Reach.antt =====
-- Runs of a server: the operations of antarc-protocol/src/server/service.rs in any order.
use antarc.Reliability.{retry, ReliabilityHandler}
use antarc.Scheduler.{push, Scheduler}
use antarc.Events.{fail, ProtocolEvent, ServerEvent}
use antarc.Server.Poll.{poll, poll-Inv}
use antarc.Shared.{
  Option, subst, sym, ◌⊎◌, ℕ, ◌≤◌, ◌≡◌, ◌≢◌, refl, arith, Bool, false, List, length, inl, inr,
}
use antarc.Shared.HashMap.{get}
use antarc.Base.Errors.{ProtocolError}
use antarc.Base.Results.{
  >>=-eq-ok, ok-injective, Result, ok, err, panic, Reply, done, failed, panicked, lift,
}
use antarc.Base.Words.{Build}
use antarc.Packets.Delivery.{Duration, PacketId, ToSend}
use antarc.Packets.Message.{ConnectionAccepted, DataTransfer, Fragment, Heartbeat}
use antarc.Packets.Packet.{Packet, RawPacket}
use antarc.Packets.Decode.{try_for_server}
use antarc.Packets.Raw.{decode_for_server}
use antarc.Packets.Scheduled.{ReliabilityType}
use antarc.Packets.Sound.{inner_decode-ne-panic}
use antarc.Server.{
  ServerScheduler, ServerReliabilityHandler, Server, new_server, sent_data_transfer, sent_fragment,
  sent_heartbeat, sent_connection_accepted, retry_reliable_connection_accepted,
}
use antarc.Server.Handle.{on_received}
use antarc.Server.Requests.{Inv, Keeps}
use antarc.Server.Invariant.{handle-Keeps}
use antarc.Server.Sends.{
  sent_data_transfer-Inv, sent_fragment-Inv, sent_heartbeat-Inv, sent_connection_accepted-Inv,
}

decode_for_server-ne-panic :
    (b : Build) (raw : RawPacket) (time : Duration)
    → b.debug_assertions ≡ false
    → 17 ≤ length raw.bytes
    → decode_for_server b raw time ≢ panic
unfolding decode_for_server try_for_server
decode_for_server-ne-panic b raw time release long =
    ground (arith, inner_decode-ne-panic b raw time release long)

lift-Keeps :
    {A B : Type 0} (s : Server) (r : Result A) (f : A → Reply Server B)
    → r ≢ panic
    → ((a : A) → Keeps s (f a))
    → Keeps s (lift s r f)
lift-Keeps s (ok a) f h k = k a
lift-Keeps s (err e) f h k = refl
lift-Keeps s panic f h k = absurd (h refl)

-- Without debug assertions, in a state of the invariant, a datagram of 17 bytes or more, whatever is
-- in it, keeps the invariant or, with an error, leaves the server as it was, and panics only if
-- the tracker is the last u16.
pub on_received-Keeps :
    (b : Build) (s : Server) (raw : RawPacket) (packet_id : PacketId) (time : Duration)
    → b.debug_assertions ≡ false
    → 17 ≤ length raw.bytes
    → Inv s
    → Keeps s (on_received b s raw packet_id time)
unfolding on_received
on_received-Keeps b s raw packet_id time release long inv =
    lift-Keeps s (decode_for_server b raw time) _
      (decode_for_server-ne-panic b raw time release long)
      (λ decoded. handle-Keeps b s decoded packet_id time inv)

pub new_server-Inv : (capacity : ℕ) → Inv (new_server capacity)
unfolding new_server get
new_server-Inv capacity = record {
  tracker_pos = omega arith;
  tracker_range = omega arith;
  idle = refl;
  awaiting_range = λ k h. refl;
  connected_range = λ k h. refl;
  apart = λ k. inl refl;
  own_address = λ i j address hi hj. cc;
  peers_fit = tt;
}

-- The operations of a server, one at a time: each constructor is a call that returned.
pub data Step (b : Build) (s t : Server) : Type 0 where
  received :
      (raw : RawPacket) (packet_id : PacketId) (time : Duration) (more : Bool)
      → on_received b s raw packet_id time ≡ done t more
      → Step b s t
  refused :
      (raw : RawPacket) (packet_id : PacketId) (time : Duration) (e : ProtocolError)
      → on_received b s raw packet_id time ≡ failed t e
      → Step b s t
  accepted_sent :
      (packet : Packet ToSend ConnectionAccepted) (time ttl : Duration)
      → sent_connection_accepted s packet time ttl ≡ ok t
      → Step b s t
  data_sent :
      (packet : Packet ToSend DataTransfer) (time : Duration) (reliability : ReliabilityType)
      (ttl : Duration)
      → sent_data_transfer s packet time reliability ttl ≡ ok t
      → Step b s t
  fragment_sent :
      (packet : Packet ToSend Fragment) (time : Duration) (reliability : ReliabilityType)
      (ttl : Duration)
      → sent_fragment b s packet time reliability ttl ≡ ok t
      → Step b s t
  heartbeat_sent :
      (packet : Packet ToSend Heartbeat) (time : Duration) (reliability : ReliabilityType)
      (ttl : Duration)
      → sent_heartbeat s packet time reliability ttl ≡ ok t
      → Step b s t
  retried :
      (time : Duration) (packet : Option (Packet ToSend ConnectionAccepted))
      → retry_reliable_connection_accepted s time ≡ ok (t, packet)
      → Step b s t
  polled :
      (now : Duration) (events : List (ProtocolEvent ServerEvent))
      → poll s now ≡ ok (t, events)
      → Step b s t
  -- What `Protocol` does through `scheduler_mut` and `reliability_handler_mut`: `schedule`,
  -- `heartbeat`, the `drain_` and the `retry_` methods.
  scheduler_mut :
      (scheduler : Scheduler ServerScheduler) → record s { scheduler = scheduler } ≡ t → Step b s t
  reliability_handler_mut :
      (handler : ReliabilityHandler ServerReliabilityHandler)
      → record s { reliability_handler = handler } ≡ t
      → Step b s t
  -- The loop of antarc/src/server.rs tells the user of an error of `on_received`.
  reported :
      (problem : ProtocolError) → record s { api = push s.api (fail problem) } ≡ t → Step b s t

-- A received packet keeps the invariant whatever the build, if the call returns.
lift-done :
    {A B : Type 0} (s : Server) (r : Result A) (f : A → Reply Server B)
    → ((a : A) → Keeps s (f a))
    → (lift s r f ≡ panicked) ⊎ Keeps s (lift s r f)
lift-done s (ok a) f k = inr (k a)
lift-done s (err e) f k = inr refl
lift-done s panic f k = inl refl

on_received-done :
    (b : Build) (s : Server) (raw : RawPacket) (packet_id : PacketId) (time : Duration)
    → Inv s
    → (on_received b s raw packet_id time ≡ panicked) ⊎ Keeps s (on_received b s raw packet_id time)
unfolding on_received
on_received-done b s raw packet_id time inv =
    lift-done s (decode_for_server b raw time) _
      (λ decoded. handle-Keeps b s decoded packet_id time inv)

-- A retry leaves the tables alone.
retried-Inv :
    (s t : Server) (time : Duration) (packet : Option (Packet ToSend ConnectionAccepted))
    → retry_reliable_connection_accepted s time ≡ ok (t, packet)
    → Inv s
    → Inv t
unfolding retry_reliable_connection_accepted
retried-Inv s t time packet returns inv =
    let (answer, e, rest) =
      >>=-eq-ok (retry s.reliability_handler.service.list_sent_connection_accepted time) _
        returns in
    subst (λ (a : Server × Option (Packet ToSend ConnectionAccepted)). Inv a.0) (ok-injective rest)
      inv

pub Step-Inv : (b : Build) {s t : Server} → Step b s t → Inv s → Inv t
Step-Inv b {s} {t} (received raw packet_id time more e) inv =
    elim (on_received-done b s raw packet_id time inv) [ inl p ↦ cc | inr k ↦ rw e at k ]
Step-Inv b {s} {t} (refused raw packet_id time x e) inv =
    elim (on_received-done b s raw packet_id time inv) [
      | inl p ↦ cc
      | inr k ↦ let same : Keeps {A = Bool} s (failed t x) = rw e at k in subst Inv (sym same) inv
    ]
Step-Inv b (accepted_sent packet time ttl e) inv =
    sent_connection_accepted-Inv _ time ttl inv packet _ e
Step-Inv b (data_sent packet time reliability ttl e) inv =
    sent_data_transfer-Inv _ time ttl inv packet reliability _ e
Step-Inv b (fragment_sent packet time reliability ttl e) inv =
    sent_fragment-Inv _ time ttl inv b packet reliability _ e
Step-Inv b (heartbeat_sent packet time reliability ttl e) inv =
    sent_heartbeat-Inv _ time ttl inv packet reliability _ e
Step-Inv b {s} {t} (retried time packet e) inv = retried-Inv s t time packet e inv
Step-Inv b {s} {t} (polled now events e) inv = (poll-Inv s t now events e inv).0
Step-Inv b (scheduler_mut scheduler e) inv = subst Inv e inv
Step-Inv b (reliability_handler_mut handler e) inv = subst Inv e inv
Step-Inv b (reported problem e) inv = subst Inv e inv

pub data Reach (b : Build) (capacity : ℕ) : Server → Type 0 where
  start : Reach b capacity (new_server capacity)
  next : {s t : Server} → Reach b capacity s → Step b s t → Reach b capacity t

-- On every run of a server, in every order of its operations, the invariant of the tables
-- holds: no peer is left requesting, connection ids stay between 1 and the tracker, no id
-- awaits an ack and is connected, no two ids share an address, and the groups of fragments fit.
pub Reach-Inv : (b : Build) {capacity : ℕ} {s : Server} → Reach b capacity s → Inv s
Reach-Inv b {capacity} start = new_server-Inv capacity
Reach-Inv b (next r step) = Step-Inv b step (Reach-Inv b r)
