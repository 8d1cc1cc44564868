-- ===== src/Service.antt =====
-- The trait `Service` of antarc-protocol/src/service_traits.rs, with the laws that a reference into
-- the service has, and its two implementations.
pub mod Agreement
use antarc.Shared.{◌≡◌, refl}
use antarc.Shared.HashMap.{HashMap}
use antarc.Base.Results.{Result}
use antarc.Base.Words.{Build}
use antarc.Packets.Delivery.{Duration, ToSend}
use antarc.Packets.Message.{DataTransfer, Fragment, Heartbeat}
use antarc.Packets.Packet.{Packet}
use antarc.Packets.Scheduled.{ReliabilityType}
use antarc.Peers.{Peer, Connected}
use antarc.Reliability.{ReliabilityHandler}
use antarc.Scheduler.{Scheduler}
use antarc.Server
use antarc.Server.{Server, ServerScheduler, ServerReliabilityHandler}
use antarc.Client
use antarc.Client.{Client, ClientScheduler, ClientReliabilityHandler}

-- `scheduler_mut` hands out a place in the service: it is read by `scheduler`, written by
-- `with_scheduler`, and what is written there leaves the connected peers alone. So does
-- `reliability_handler_mut`.
pub record Service (S T H : Type 0) : Type 0 where
  pub scheduler : S → Scheduler T
  pub with_scheduler : S → Scheduler T → S
  pub reliability_handler : S → ReliabilityHandler H
  pub with_reliability_handler : S → ReliabilityHandler H → S
  pub connected : S → HashMap (Peer Connected)
  pub sent_data_transfer :
      S → Packet ToSend DataTransfer → Duration → ReliabilityType → Duration → Result S
  pub sent_fragment :
      Build → S → Packet ToSend Fragment → Duration → ReliabilityType → Duration → Result S
  pub sent_heartbeat :
      S → Packet ToSend Heartbeat → Duration → ReliabilityType → Duration → Result S
  pub scheduler-with_scheduler : (s : S) (x : Scheduler T) → scheduler (with_scheduler s x) ≡ x
  pub connected-with_scheduler :
      (s : S) (x : Scheduler T) → connected (with_scheduler s x) ≡ connected s
  pub with_scheduler_twice :
      (s : S) (x y : Scheduler T) → with_scheduler (with_scheduler s x) y ≡ with_scheduler s y
  pub with_scheduler_same : (s : S) → with_scheduler s (scheduler s) ≡ s
  pub scheduler-with_reliability_handler :
      (s : S) (x : ReliabilityHandler H) → scheduler (with_reliability_handler s x) ≡ scheduler s

abbrev pub server_service : Service Server ServerScheduler ServerReliabilityHandler
server_service = record {
  scheduler = λ s. s.scheduler;
  with_scheduler = λ s x. record s { scheduler = x };
  reliability_handler = λ s. s.reliability_handler;
  with_reliability_handler = λ s x. record s { reliability_handler = x };
  connected = λ s. s.connected;
  sent_data_transfer = Server.sent_data_transfer;
  sent_fragment = Server.sent_fragment;
  sent_heartbeat = Server.sent_heartbeat;
  scheduler-with_scheduler = λ s x. refl;
  connected-with_scheduler = λ s x. refl;
  with_scheduler_twice = λ s x y. refl;
  with_scheduler_same = λ s. refl;
  scheduler-with_reliability_handler = λ s x. refl;
}

abbrev pub client_service : Service Client ClientScheduler ClientReliabilityHandler
client_service = record {
  scheduler = λ s. s.scheduler;
  with_scheduler = λ s x. record s { scheduler = x };
  reliability_handler = λ s. s.reliability_handler;
  with_reliability_handler = λ s x. record s { reliability_handler = x };
  connected = λ s. s.connected;
  sent_data_transfer = Client.sent_data_transfer;
  sent_fragment = Client.sent_fragment;
  sent_heartbeat = Client.sent_heartbeat;
  scheduler-with_scheduler = λ s x. refl;
  connected-with_scheduler = λ s x. refl;
  with_scheduler_twice = λ s x y. refl;
  with_scheduler_same = λ s. refl;
  scheduler-with_reliability_handler = λ s x. refl;
}
