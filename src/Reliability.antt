-- ===== src/Reliability.antt =====
-- antarc-protocol/src/reliability.rs: the reliable packets that were sent.
pub mod Lists
use antarc.Base.Results.{Result, ok, ◌>>=◌}
use antarc.Shared.{ℕ, ◌+◌, Bool, false, List, [], ◌∷◌, Option, none, some, ltb, if◌then◌else◌}
use antarc.Shared.HashMap.{is_some}
use antarc.Packets.Delivery.{duration_sum, Duration, ToSend, Sent, from_secs}
use antarc.Packets.Message.{DataTransfer, Fragment, Heartbeat}
use antarc.Packets.Packet.{Packet}
use antarc.Packets.Reassembly.{pop}
use mathlib.Core.Option

-- The trait `ServiceReliability` of service_traits.rs.
pub record ServiceReliability (S : Type 0) : Type 0 where
  pub new : ℕ → S
  pub poll : S → Duration → Result S

pub record ReliabilityHandler (S : Type 0) : Type 0 where
  pub list_sent_reliable_data_transfer : List (Packet Sent DataTransfer)
  pub list_sent_reliable_heartbeat : List (Packet Sent Heartbeat)
  pub list_sent_reliable_fragment : List (Packet Sent Fragment)
  pub service : S

module _ {A : Type 0} where
  -- `Vec::first` and `Vec::remove(0)`.
  abbrev pub first : List A → Option A
  first [] = none
  first (x ∷ xs) = some x

  abbrev pub remove_first : List A → List A
  remove_first [] = []
  remove_first (x ∷ xs) = xs

-- `bool::then(|| ())`
abbrev pub then_unit : Bool → Option (Unit {0})
then_unit b = if b then some tt else none

module _ {M : Type 0} where
  -- The test of the three `poll` methods, `first().map(…).is_some()`: the closure adds the time
  -- to live to the time.
  unfoldable pub polls : List (Packet Sent M) → Duration → Result Bool
  unfolding duration_sum
  polls packets now = elim (first packets) [
    | none ↦ ok false
    | some packet ↦ do
      expires ← duration_sum packet.delivery.meta.time packet.delivery.ttl
      ok (is_some (some (then_unit (ltb now expires))))
  ]

  -- The `retry` and `resend` methods, which differ in the list alone: what is left of the
  -- list, and the packet to send again.
  unfoldable pub retry :
      List (Packet Sent M) → Duration → Result (List (Packet Sent M) × Option (Packet ToSend M))
  unfolding pop duration_sum
  retry packets now = elim (pop packets) [
    | none ↦ ok (packets, none)
    | some (rest, packet) ↦ do
      total ← duration_sum packet.delivery.meta.time now
      ok (
          if ltb (from_secs 1000) total
          then (
            rest,
            some (record {
              delivery = record {
                id = packet.delivery.id;
                meta = record { time = now; address = packet.delivery.meta.address };
              };
              sequence = packet.sequence;
              ack = packet.ack;
              message = packet.message;
            }),
          )
          else (rest, none))
  ]

module _ {S : Type 0} where
  -- `ReliabilityHandler::new`
  unfoldable pub new_handler : ⦃s : ServiceReliability S⦄ → ℕ → ReliabilityHandler S
  new_handler ⦃s⦄ capacity = record {
    list_sent_reliable_data_transfer = [];
    list_sent_reliable_heartbeat = [];
    list_sent_reliable_fragment = [];
    service = s.new capacity;
  }

  -- The second branch of `poll`, reached when no data transfer was sent.
  unfoldable pub poll_fragments : ReliabilityHandler S → Duration → Result (ReliabilityHandler S)
  unfolding polls
  poll_fragments handler now = do
    first_sent ← polls handler.list_sent_reliable_fragment now
    ok (
        if first_sent
        then record handler {
          list_sent_reliable_fragment = remove_first handler.list_sent_reliable_fragment;
        }
        else handler)

  -- `ReliabilityHandler::poll`
  unfoldable pub poll_handler :
      ⦃s : ServiceReliability S⦄ → ReliabilityHandler S → Duration → Result (ReliabilityHandler S)
  unfolding polls poll_fragments
  poll_handler ⦃s⦄ handler now = do
    first_sent ← polls handler.list_sent_reliable_data_transfer now
    handler' ←
        if first_sent
        then ok (record handler {
          list_sent_reliable_data_transfer = remove_first handler.list_sent_reliable_data_transfer;
        })
        else poll_fragments handler now
    service ← s.poll handler'.service now
    ok (record handler' { service = service })

  unfoldable pub retry_reliable_data_transfer :
      ReliabilityHandler S
      → Duration
      → Result (ReliabilityHandler S × Option (Packet ToSend DataTransfer))
  unfolding retry
  retry_reliable_data_transfer handler now = do
    (rest, packet) ← retry handler.list_sent_reliable_data_transfer now
    ok (record handler { list_sent_reliable_data_transfer = rest }, packet)

  unfoldable pub retry_reliable_fragment :
      ReliabilityHandler S
      → Duration
      → Result (ReliabilityHandler S × Option (Packet ToSend Fragment))
  unfolding retry
  retry_reliable_fragment handler now = do
    (rest, packet) ← retry handler.list_sent_reliable_fragment now
    ok (record handler { list_sent_reliable_fragment = rest }, packet)

  unfoldable pub retry_reliable_heartbeat :
      ReliabilityHandler S
      → Duration
      → Result (ReliabilityHandler S × Option (Packet ToSend Heartbeat))
  unfolding retry
  retry_reliable_heartbeat handler now = do
    (rest, packet) ← retry handler.list_sent_reliable_heartbeat now
    ok (record handler { list_sent_reliable_heartbeat = rest }, packet)
