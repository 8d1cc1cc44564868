-- ===== src/Net.antt =====
-- The network manager of antarc/src/lib.rs: a protocol with its socket, and the steps that its
-- loops are made of. The socket and the clock are those of the standard library.
pub mod Polls
pub mod Kept
pub mod KeptPolls
pub mod KeptSchedule
pub mod ServerReach
pub mod ServerRuns
pub mod ClientReach
pub mod ClientRuns
pub mod Sending
pub mod Transfers
pub mod TransferPolls
pub mod Sent
pub mod Fragments
pub mod FragmentPolls
pub mod Senders
pub mod FragmentSenders
pub mod Arrival
pub mod Unreported
pub mod Delivery
pub mod FragmentArrival
pub mod FragmentDelivery
pub mod CutArrival
pub mod LargePayload
pub mod Cut
pub mod Resend
pub mod ServerLoop
pub mod ClientLoop
use antarc.Packets.Raw.{slice_to}
use antarc.Shared.{zero, suc, ℕ, List, [], ◌∷◌, Option, none, some}
use antarc.Base.Errors.{ProtocolError, SocketAddr}
use antarc.Base.Results.{panicked, Result, ok, panic, Reply, done, failed, ◌>>=◌, unwrap}
use antarc.Base.Words.{Build}
use antarc.Packets.Delivery.{Duration, PacketId, ToSend}
use antarc.Packets.Message.{Payload}
use antarc.Packets.Encode.{Encoder}
use antarc.Packets.Packet.{RawPacket, Packet, as_raw}
use antarc.Packets.Scheduled.{ReliabilityType, Scheduled}
use antarc.Peers.{SendTo}
use antarc.Protocol.{Protocol}
use antarc.Service.{Service}

-- `UdpSocket` and `Instant` of the standard library, over a state of the host. Where a call
-- answers `Err`, the result is `none`: `recv_from` answers the buffer that it wrote, with the
-- number of bytes and the address of the sender.
pub record Host (K : Type 0) : Type 0 where
  pub bind : K → SocketAddr → Option K
  pub elapsed : K → K × Duration
  pub send_to : K → List ℕ → SocketAddr → Option K
  pub recv_from : K → List ℕ → K × (List ℕ × Option (ℕ × SocketAddr))

pub record AntarcNet (S K : Type 0) : Type 0 where
  pub antarc : Protocol S
  pub address : SocketAddr
  -- The socket, with the clock that the timer of `antarc` reads.
  pub socket : K
  pub recv_buffer : List ℕ

-- `vec![0; n]`
abbrev pub zeroed : ℕ → List ℕ
zeroed zero = []
zeroed (suc n) = 0 ∷ zeroed n

module _ {S K : Type 0} (h : Host K) where
  -- Reading the timer.
  unfoldable pub now : AntarcNet S K → AntarcNet S K × Duration
  now n = let (socket, time) = h.elapsed n.socket in (record n { socket = socket }, time)

  -- `as_raw` and `send_to(..).unwrap()`
  unfoldable pub send :
      {M : Type 0} ⦃e : Encoder M⦄
      → Build
      → AntarcNet S K
      → Packet ToSend M
      → Result (AntarcNet S K)
  unfolding as_raw
  send b n packet = do
    raw_packet ← as_raw b packet
    socket ← unwrap (h.send_to n.socket raw_packet.bytes raw_packet.address)
    ok (record n { socket = socket })

  module _ {M : Type 0} ⦃e : Encoder M⦄ (b : Build)
      (sent : Protocol S → Packet ToSend M → Duration → Result (Protocol S)) where
    -- Sending a packet, and the `sent_` method that follows.
    unfoldable pub deliver : AntarcNet S K → Packet ToSend M → Result (AntarcNet S K)
    unfolding send now
    deliver n packet = do
      n' ← send b n packet
      let (n'', time) = now n'
      antarc ← sent n''.antarc packet time
      ok (record n'' { antarc = antarc })

    -- The body of the `poll_` loops: `create_`, sending, `sent_`.
    unfoldable pub send_one :
        {R : Type 0}
        → (Protocol S → Scheduled R M → Duration → Result (Packet ToSend M))
        → AntarcNet S K
        → Scheduled R M
        → Result (AntarcNet S K)
    unfolding deliver now
    send_one create n scheduled = do
      let (n', time) = now n
      packet ← create n'.antarc scheduled time
      deliver n' packet

    -- `for scheduled in ..`
    unfoldable pub send_all :
        {R : Type 0}
        → (Protocol S → Scheduled R M → Duration → Result (Packet ToSend M))
        → AntarcNet S K
        → List (Scheduled R M)
        → Result (AntarcNet S K)
    unfolding send_one
    send_all create n [] = ok n
    send_all create n (scheduled ∷ rest) = do
      n' ← send_one create n scheduled
      send_all create n' rest

    -- `for scheduled in self.antarc.drain_..(..).collect::<Vec<_>>()`
    unfoldable pub send_drained :
        {R : Type 0}
        → (Protocol S → Protocol S × List (Scheduled R M))
        → (Protocol S → Scheduled R M → Duration → Result (Packet ToSend M))
        → AntarcNet S K
        → Result (AntarcNet S K)
    unfolding send_all
    send_drained drain create n =
        let (antarc, list) = drain n.antarc in send_all create (record n { antarc = antarc }) list

    -- `if let Some(reliable_packet) = self.antarc.retry_..()`
    unfoldable pub resend :
        (Protocol S → Duration → Result (Protocol S × Option (Packet ToSend M)))
        → AntarcNet S K
        → Result (AntarcNet S K)
    unfolding deliver now
    resend retry n =
        let (n', time) = now n in
        retry n'.antarc time >>= λ answer. elim answer.1 [
          | none ↦ ok (record n' { antarc = answer.0 })
          | some reliable_packet ↦ deliver (record n' { antarc = answer.0 }) reliable_packet
        ]

-- The answer of a method of the protocol, with the manager around it.
unfoldable pub around :
    {S K A : Type 0} → AntarcNet S K → Reply (Protocol S) A → Reply (AntarcNet S K) A
around n Reply.panicked = Reply.panicked
around n (failed antarc problem) = failed (record n { antarc = antarc }) problem
around n (done antarc answer) = done (record n { antarc = antarc }) answer

-- What `poll` of both sides does with the answer of `on_received`: an error goes to the user, by
-- `report`.
unfoldable pub record_failure :
    {S K : Type 0}
    → (S → ProtocolError → S)
    → AntarcNet S K
    → Reply (Protocol S) (Unit {0})
    → Result (AntarcNet S K)
record_failure report n panicked = panic
record_failure report n (done antarc answer) = ok (record n { antarc = antarc })
record_failure report n (failed antarc problem) =
    ok (record n { antarc = record antarc { service = report antarc.service problem } })

module _ {S K : Type 0} (h : Host K)
    (on_received : Protocol S → RawPacket → Duration → Reply (Protocol S) (Unit {0}))
    (report : S → ProtocolError → S) where
  -- The `match` on the answer of `recv_from`; `todo!()` is a panic.
  unfoldable pub match_received :
      AntarcNet S K → K × (List ℕ × Option (ℕ × SocketAddr)) → Result (AntarcNet S K)
  unfolding record_failure now slice_to
  match_received n (socket, (recv_buffer, none)) = panic
  match_received n (socket, (recv_buffer, some (bytes_len, from_address))) = do
    bytes ← unwrap (slice_to bytes_len recv_buffer)
    let (n', time) = now h (record n { socket = socket; recv_buffer = recv_buffer })
    record_failure report n'
        (on_received n'.antarc (record { address = from_address; bytes = bytes }) time)

  unfoldable pub receive : AntarcNet S K → Result (AntarcNet S K)
  unfolding match_received
  receive n = match_received n (h.recv_from n.socket n.recv_buffer)
