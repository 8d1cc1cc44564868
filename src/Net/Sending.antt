-- ===== src/Net/Sending.antt =====
-- What a loop of antarc/src/lib.rs sends, on a host whose `send_to` succeeds.
use antarc.Packets.Delivery.{Duration, ToSend}
use antarc.Packets.Scheduled.{into_packet, Scheduled}
use antarc.Protocol.{Protocol}
use antarc.Packets.Packet.{Packet, RawPacket}
use antarc.Base.Words.{u32_mod, Build}
use antarc.Packets.Message.{Ack, Sequence}
use antarc.Net.{now, deliver, send_all, send_one, AntarcNet, send, Host}
use antarc.Packets.Encode.{Encoder}
use antarc.Shared.{
  append-nil, append_assoc, subst, sym, inl, refl, ap, ◌∙◌, List, [], ◌∷◌, ◌++◌, length, map, arith,
  All, some, ◌≡◌, ◌<◌, ◌+◌, false,
}
use antarc.Base.Results.{ok, Result}
use antarc.Packets.Framing.{framed, body, as_raw-framed}

-- What the loops rely on where they send: `send_to` succeeds, and the datagrams that it was given
-- are a log of the host, which reading the clock leaves alone.
pub record Sends {K : Type 0} (h : Host K) : Type 0 where
  pub log : K → List RawPacket
  pub log-elapsed : (k : K) → log (h.elapsed k).0 ≡ log k
  pub send_to_logs :
      (k : K) (raw : RawPacket)
      → (k' : K) × (h.send_to k raw.bytes raw.address ≡ some k') × (log k' ≡ log k ++ (raw ∷ []))

-- The datagram of a packet.
abbrev pub datagram : {M : Type 0} ⦃e : Encoder M⦄ → Build → Packet ToSend M → RawPacket
datagram b packet = framed b packet.delivery.meta.address (body packet)

-- The packets of a list of messages to a peer: their sequence numbers count on from the first.
abbrev pub numbered :
    {R M : Type 0} → Sequence → Ack → List (Scheduled R M) → List (Packet ToSend M)
numbered first ack [] = []
numbered first ack (scheduled ∷ list) =
    into_packet scheduled first ack 0 ∷ numbered (first + 1) ack list

module _ {S K : Type 0} {h : Host K} (sends : Sends h) (b : Build)
    (release : b.debug_assertions ≡ false) {M : Type 0} ⦃e : Encoder M⦄ where
  pub send_logs :
      (n : AntarcNet S K) (packet : Packet ToSend M)
      → (k : K) × (send h b n packet ≡ ok (record n { socket = k }))
        × (sends.log k ≡ sends.log n.socket ++ (datagram b packet ∷ []))
  unfolding send
  send_logs n packet =
      let (k, sent, logged) = sends.send_to_logs n.socket (datagram b packet) in
      (k, rw (as_raw-framed b packet (inl release), sent) refl, logged)

  -- One round of a loop, where the packet can be made and the service takes it.
  pub send_one_logs :
      {R : Type 0} (create : Protocol S → Scheduled R M → Duration → Result (Packet ToSend M))
      (sent : Protocol S → Packet ToSend M → Duration → Result (Protocol S))
      (IsAfter : Protocol S → Type 0) (n : AntarcNet S K) (scheduled : Scheduled R M)
      (first : Sequence) (ack : Ack)
      → ((time : Duration)
          → create n.antarc scheduled time ≡ ok (into_packet scheduled first ack time))
      → ((time later : Duration)
          → (p' : Protocol S) × (sent n.antarc (into_packet scheduled first ack time) later ≡ ok p')
            × IsAfter p')
      → (n' : AntarcNet S K) × (send_one h b sent create n scheduled ≡ ok n')
        × IsAfter n'.antarc
        × (sends.log n'.socket
            ≡ sends.log n.socket ++ (datagram b (into_packet scheduled first ack 0) ∷ []))
  unfolding send_one deliver now into_packet
  send_one_logs create sent IsAfter n scheduled first ack created told =
      let time = (now h n).1 in
      let packet = into_packet scheduled first ack time in
      let (k, was_sent, logged) = send_logs (now h n).0 packet in
      let (antarc, was_told, after) = told time (h.elapsed k).1 in
      (
        record n { antarc = antarc; socket = (h.elapsed k).0 },
        rw (created time, was_sent, was_told) refl,
        after,
        sends.log-elapsed k
            ∙ logged
            ∙ ap (λ l. l ++ (datagram b packet ∷ [])) (sends.log-elapsed n.socket),
      )

  module _ {R : Type 0} (create : Protocol S → Scheduled R M → Duration → Result (Packet ToSend M))
      (sent : Protocol S → Packet ToSend M → Duration → Result (Protocol S)) (ack : Ack)
      (IsReady : Protocol S → Sequence → Type 0) (IsFor : Scheduled R M → Type 0)
      (create_ready : (p : Protocol S) (first : Sequence) (scheduled : Scheduled R M)
          (time : Duration)
        → IsReady p first
        → IsFor scheduled
        → create p scheduled time ≡ ok (into_packet scheduled first ack time))
      (sent_ready : (p : Protocol S) (first : Sequence) (scheduled : Scheduled R M)
          (time later : Duration)
        → IsReady p first
        → IsFor scheduled
        → first + 1 < u32_mod
        → (p' : Protocol S) × (sent p (into_packet scheduled first ack time) later ≡ ok p')
          × IsReady p' (first + 1)) where
    -- A loop over messages to a peer that is ready returns; it sends each of them, once and in
    -- order, with sequence numbers that count on, and leaves the peer ready for the next number.
    pub send_all-numbered :
        (n : AntarcNet S K) (first : Sequence) (list : List (Scheduled R M))
        → IsReady n.antarc first
        → All IsFor list
        → first + length list < u32_mod
        → (n' : AntarcNet S K) × (send_all h b sent create n list ≡ ok n')
          × IsReady n'.antarc (first + length list)
          × (sends.log n'.socket ≡ sends.log n.socket ++ map (datagram b) (numbered first ack list))
    unfolding send_all
    send_all-numbered n first [] ready for_peer room = (
      n,
      refl,
      subst (IsReady n.antarc) (omega arith) ready,
      sym (append-nil (sends.log n.socket)),
    )
    send_all-numbered n first (scheduled ∷ list) ready for_peer room =
        let (n₁, one, ready₁, log₁) =
          send_one_logs create sent (λ p. IsReady p (first + 1)) n scheduled first ack
            (λ time. create_ready n.antarc first scheduled time ready for_peer.0)
            (λ time later.
              sent_ready n.antarc first scheduled time later ready for_peer.0 (omega arith)) in
        let (n₂, all, ready₂, log₂) =
          send_all-numbered n₁ (first + 1) list ready₁ for_peer.1 (omega arith) in
        (
          n₂,
          rw one all,
          subst (IsReady n₂.antarc) (omega arith) ready₂,
          rw (log₂, log₁)
              (append_assoc (sends.log n.socket)
                (datagram b (into_packet scheduled first ack 0) ∷ [])
                (map (datagram b) (numbered (first + 1) ack list))),
        )
