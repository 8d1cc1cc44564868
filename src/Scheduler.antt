-- ===== src/Scheduler.antt =====
-- antarc-protocol/src/scheduler.rs: the packets that wait to be sent.
use antarc.Shared.{ℕ, List, [], ◌∷◌, ◌++◌, ltb, if◌then◌else◌}
use antarc.Base.Errors.{SocketAddr}
use antarc.Packets.Delivery.{Duration, PacketId}
use antarc.Packets.Message.{ConnectionId, Payload, DataTransfer, Fragment, Heartbeat}
use antarc.Packets.Scheduled.{
  Scheduled, Reliable, Unreliable, ReliabilityType, new_unreliable_fragment, new_reliable_fragment,
  new_unreliable_data_transfer, new_reliable_data_transfer, new_unreliable_heartbeat,
  new_reliable_heartbeat,
}

-- The trait `ServiceScheduler` of service_traits.rs.
pub record ServiceScheduler (S : Type 0) : Type 0 where
  pub new : ℕ → S

pub record Scheduler (S : Type 0) : Type 0 where
  pub list_scheduled_reliable_data_transfer : List (Scheduled Reliable DataTransfer)
  pub list_scheduled_unreliable_data_transfer : List (Scheduled Unreliable DataTransfer)
  pub list_scheduled_reliable_fragment : List (Scheduled Reliable Fragment)
  pub list_scheduled_unreliable_fragment : List (Scheduled Unreliable Fragment)
  pub list_scheduled_reliable_heartbeat : List (Scheduled Reliable Heartbeat)
  pub list_scheduled_unreliable_heartbeat : List (Scheduled Unreliable Heartbeat)
  pub service : S

-- `Vec::push`
abbrev pub push : {A : Type 0} → List A → A → List A
push xs x = xs ++ (x ∷ [])

module _ {S : Type 0} where
  -- `Scheduler::new`
  unfoldable pub new_scheduler : ⦃s : ServiceScheduler S⦄ → ℕ → Scheduler S
  new_scheduler ⦃s⦄ capacity = record {
    list_scheduled_reliable_data_transfer = [];
    list_scheduled_unreliable_data_transfer = [];
    list_scheduled_reliable_fragment = [];
    list_scheduled_unreliable_fragment = [];
    list_scheduled_reliable_heartbeat = [];
    list_scheduled_unreliable_heartbeat = [];
    service = s.new capacity;
  }

  unfoldable pub schedule_fragment :
      Scheduler S
      → ReliabilityType
      → PacketId
      → ConnectionId
      → Payload
      → ℕ
      → ℕ
      → Duration
      → SocketAddr
      → Scheduler S
  schedule_fragment scheduler ReliabilityType.reliable packet_id connection_id payload index total
        time address =
      record scheduler {
        list_scheduled_reliable_fragment =
            push scheduler.list_scheduled_reliable_fragment
              (new_reliable_fragment packet_id connection_id payload index total time address);
      }
  schedule_fragment scheduler ReliabilityType.unreliable packet_id connection_id payload index total
        time address =
      record scheduler {
        list_scheduled_unreliable_fragment =
            push scheduler.list_scheduled_unreliable_fragment
              (new_unreliable_fragment packet_id connection_id payload index total time address);
      }

  unfoldable pub schedule_data_transfer :
      Scheduler S
      → ReliabilityType
      → PacketId
      → ConnectionId
      → Payload
      → Duration
      → SocketAddr
      → Scheduler S
  schedule_data_transfer scheduler ReliabilityType.reliable packet_id connection_id payload time
        address =
      record scheduler {
        list_scheduled_reliable_data_transfer =
            push scheduler.list_scheduled_reliable_data_transfer
              (new_reliable_data_transfer packet_id connection_id payload time address);
      }
  schedule_data_transfer scheduler ReliabilityType.unreliable packet_id connection_id payload time
        address =
      record scheduler {
        list_scheduled_unreliable_data_transfer =
            push scheduler.list_scheduled_unreliable_data_transfer
              (new_unreliable_data_transfer packet_id connection_id payload time address);
      }

  unfoldable pub schedule_heartbeat :
      Scheduler S → ReliabilityType → PacketId → ConnectionId → Duration → SocketAddr → Scheduler S
  schedule_heartbeat scheduler ReliabilityType.reliable packet_id connection_id time address =
      record scheduler {
        list_scheduled_reliable_heartbeat =
            push scheduler.list_scheduled_reliable_heartbeat
              (new_reliable_heartbeat packet_id connection_id time address);
      }
  schedule_heartbeat scheduler ReliabilityType.unreliable packet_id connection_id time address =
      record scheduler {
        list_scheduled_unreliable_heartbeat =
            push scheduler.list_scheduled_unreliable_heartbeat
              (new_unreliable_heartbeat packet_id connection_id time address);
      }

  unfoldable pub schedule_for_connected_peer :
      Scheduler S
      → SocketAddr
      → Payload
      → ReliabilityType
      → ConnectionId
      → PacketId
      → Duration
      → ℕ
      → ℕ
      → Scheduler S
  unfolding schedule_fragment schedule_data_transfer
  schedule_for_connected_peer scheduler address payload reliability connection_id packet_id time
        fragment_index fragment_total =
      if ltb 1 fragment_total
      then schedule_fragment scheduler reliability packet_id connection_id payload fragment_index
          fragment_total time address
      else schedule_data_transfer scheduler reliability packet_id connection_id payload time address

  unfoldable pub heartbeat_for_connected_peer :
      Scheduler S → SocketAddr → ReliabilityType → ConnectionId → PacketId → Duration → Scheduler S
  unfolding schedule_heartbeat
  heartbeat_for_connected_peer scheduler address reliability connection_id packet_id time =
      schedule_heartbeat scheduler reliability packet_id connection_id time address
