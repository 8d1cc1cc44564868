-- ===== src/Protocol/Drains.antt =====
-- The rest of the generic half of `Protocol` in antarc-protocol/src/lib.rs, which the network loops
-- call: the `drain_` methods, over the whole range as the loops use them, the `retry_` methods and
-- the `sent_` methods. `time` is `self.timer.elapsed()`.
use antarc.Packets.Message.{DataTransfer, Heartbeat, Fragment}
use antarc.Packets.Delivery.{ToSend, Duration}
use antarc.Base.Words.{Build}
use antarc.Packets.Packet.{Packet}
use antarc.Reliability.{
  retry_reliable_fragment, retry_reliable_data_transfer, retry_reliable_heartbeat,
}
use antarc.Packets.Scheduled.{ReliabilityType, Reliable, Unreliable, Scheduled}
use antarc.Service.{Service}
use antarc.Shared.{List, [], Option}
use antarc.Base.Results.{Result, ok, ◌>>=◌}
use antarc.Protocol.{Protocol}

module _ {S T H : Type 0} (i : Service S T H) where
  unfoldable pub drain_unreliable_data_transfer :
      Protocol S → Protocol S × List (Scheduled Unreliable DataTransfer)
  drain_unreliable_data_transfer p =
      let scheduler = i.scheduler p.service in
      (
        record p {
          service =
              i.with_scheduler p.service
                (record scheduler { list_scheduled_unreliable_data_transfer = [] });
        },
        scheduler.list_scheduled_unreliable_data_transfer,
      )

  unfoldable pub drain_reliable_data_transfer :
      Protocol S → Protocol S × List (Scheduled Reliable DataTransfer)
  drain_reliable_data_transfer p =
      let scheduler = i.scheduler p.service in
      (
        record p {
          service =
              i.with_scheduler p.service
                (record scheduler { list_scheduled_reliable_data_transfer = [] });
        },
        scheduler.list_scheduled_reliable_data_transfer,
      )

  unfoldable pub drain_unreliable_fragment :
      Protocol S → Protocol S × List (Scheduled Unreliable Fragment)
  drain_unreliable_fragment p =
      let scheduler = i.scheduler p.service in
      (
        record p {
          service =
              i.with_scheduler p.service
                (record scheduler { list_scheduled_unreliable_fragment = [] });
        },
        scheduler.list_scheduled_unreliable_fragment,
      )

  unfoldable pub drain_reliable_fragment :
      Protocol S → Protocol S × List (Scheduled Reliable Fragment)
  drain_reliable_fragment p =
      let scheduler = i.scheduler p.service in
      (
        record p {
          service =
              i.with_scheduler p.service
                (record scheduler { list_scheduled_reliable_fragment = [] });
        },
        scheduler.list_scheduled_reliable_fragment,
      )

  unfoldable pub drain_reliable_heartbeat :
      Protocol S → Protocol S × List (Scheduled Reliable Heartbeat)
  drain_reliable_heartbeat p =
      let scheduler = i.scheduler p.service in
      (
        record p {
          service =
              i.with_scheduler p.service
                (record scheduler { list_scheduled_reliable_heartbeat = [] });
        },
        scheduler.list_scheduled_reliable_heartbeat,
      )

  unfoldable pub drain_unreliable_heartbeat :
      Protocol S → Protocol S × List (Scheduled Unreliable Heartbeat)
  drain_unreliable_heartbeat p =
      let scheduler = i.scheduler p.service in
      (
        record p {
          service =
              i.with_scheduler p.service
                (record scheduler { list_scheduled_unreliable_heartbeat = [] });
        },
        scheduler.list_scheduled_unreliable_heartbeat,
      )

  -- `Protocol::retry_reliable_data_transfer`
  unfoldable pub retry_data_transfer :
      Protocol S → Duration → Result (Protocol S × Option (Packet ToSend DataTransfer))
  unfolding retry_reliable_data_transfer
  retry_data_transfer p time = do
    (handler, packet) ← retry_reliable_data_transfer (i.reliability_handler p.service) time
    ok (record p { service = i.with_reliability_handler p.service handler }, packet)

  -- `Protocol::retry_reliable_fragment`
  unfoldable pub retry_fragment :
      Protocol S → Duration → Result (Protocol S × Option (Packet ToSend Fragment))
  unfolding retry_reliable_fragment
  retry_fragment p time = do
    (handler, packet) ← retry_reliable_fragment (i.reliability_handler p.service) time
    ok (record p { service = i.with_reliability_handler p.service handler }, packet)

  -- `Protocol::retry_reliable_heartbeat`
  unfoldable pub retry_heartbeat :
      Protocol S → Duration → Result (Protocol S × Option (Packet ToSend Heartbeat))
  unfolding retry_reliable_heartbeat
  retry_heartbeat p time = do
    (handler, packet) ← retry_reliable_heartbeat (i.reliability_handler p.service) time
    ok (record p { service = i.with_reliability_handler p.service handler }, packet)

  -- `Protocol::sent_data_transfer`
  unfoldable pub data_transfer_sent :
      Protocol S → Packet ToSend DataTransfer → ReliabilityType → Duration → Result (Protocol S)
  data_transfer_sent p packet reliability time = do
    service ← i.sent_data_transfer p.service packet time reliability p.reliable_ttl
    ok (record p { service = service })

  -- `Protocol::sent_fragment`
  unfoldable pub fragment_sent :
      Build → Protocol S → Packet ToSend Fragment → ReliabilityType → Duration → Result (Protocol S)
  fragment_sent b p packet reliability time = do
    service ← i.sent_fragment b p.service packet time reliability p.reliable_ttl
    ok (record p { service = service })

  -- `Protocol::sent_heartbeat`
  unfoldable pub heartbeat_sent :
      Protocol S → Packet ToSend Heartbeat → ReliabilityType → Duration → Result (Protocol S)
  heartbeat_sent p packet reliability time = do
    service ← i.sent_heartbeat p.service packet time reliability p.reliable_ttl
    ok (record p { service = service })
