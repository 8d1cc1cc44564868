-- ===== src/Net/FragmentArrival.antt =====
-- The fragments of a payload from the loop of a sender (antarc/src/lib.rs) to the events of a server
-- (antarc-protocol/src/server/service.rs).
use antarc.Base.Errors.{SocketAddr}
use antarc.Base.Words.{u32_mod, IsCrc32, Build}
use antarc.Packets.Delivery.{ToSend, PacketId, Duration, Received}
use antarc.Packets.Packet.{Packet}
use antarc.Server.{Server}
use antarc.Packets.Message.{Ack, Fragment, Payload, Sequence, ConnectionId}
use antarc.Shared.{
  ℕ, refl, ap, ◌∙◌, List, [], ◌∷◌, ◌++◌, length, map, concat, All, some, none, Option, ◌≡◌, ◌<◌,
  ◌+◌, arith, inl, sym, append_assoc, append-nil, length-append, false,
}
use antarc.Shared.HashMap.{get, get-insert_self}
use antarc.Base.Results.{ok, done}
use antarc.Packets.Encode.{fragment_encoder}
use antarc.Packets.Framing.{as_raw-framed, HeaderFits}
use antarc.Packets.RoundTrip.{transmit-fragment, arrived, IsFragment}
use antarc.Packets.Raw.{decode_for_server, inner_decode}
use antarc.Packets.Decode.{DecodedCommon, try_for_server}
use antarc.Packets.Reassembly.{payloads}
use antarc.Peers.{Peer, Connected, track}
use antarc.Peers.Reassemble.{reassemble, with_group}
use antarc.Peers.Transfer.{fit_after}
use antarc.Packets.Scheduled.{Scheduled, into_packet}
use antarc.Peers.Groups.{
  GroupsFit, without, reassemble_first, reassemble_partial, reassemble_complete,
}
use antarc.Server.Handle.{on_received, handle, on_fragment}
use antarc.Events.{ProtocolEvent}
use antarc.Net.Sending.{datagram}
use antarc.Net.Fragments.{group_packets}
use antarc.Net.Arrival.{receive_each}
use antarc.Server.Fragments.{events, on_fragment_step}

-- The fragments of a group that a client sends with one sequence number, as they are received.
abbrev pub arrivals :
    {R : Type 0}
    → Sequence
    → Ack
    → SocketAddr
    → Duration
    → List (Scheduled R Fragment)
    → List (Packet Received Fragment)
arrivals sequence ack from time =
    map (λ scheduled. arrived (into_packet scheduled sequence ack 0) from time)

-- A fragment of the payload to `id` in `total` parts, which fit their types.
pub record IsOf {R : Type 0} (id : ConnectionId) (total : ℕ) (scheduled : Scheduled R Fragment)
    : Type 0 where
  pub own_id : scheduled.message.connection_id ≡ id
  pub own_total : scheduled.message.total ≡ total
  pub fits_message : IsFragment scheduled.message

-- The payload that the fragments carry.
abbrev pub carried : {R : Type 0} → List (Scheduled R Fragment) → Payload
carried list = concat (map (λ scheduled. scheduled.message.payload) list)

module _ (b : Build) (crc : IsCrc32 b) (release : b.debug_assertions ≡ false) (from : SocketAddr)
    (packet_id : PacketId) (time : Duration) (id : ConnectionId) (first : Sequence) (ack : Ack)
    (fits : (0 < first) × (first < u32_mod) × (ack < u32_mod)) where
  -- The bytes of a fragment are handled as the packet that was sent.
  on_received-fragment :
      (s : Server) (packet : Packet ToSend Fragment)
      → HeaderFits packet
      → IsFragment packet.message
      → on_received b s
          (record { address = from; bytes = (datagram b packet).bytes })
          packet_id
          time
        ≡ on_fragment s (arrived packet from time) time
  unfolding on_received decode_for_server try_for_server handle
  on_received-fragment s packet fits fits_message =
      let sent = transmit-fragment b packet from time crc (inl release) fits fits_message in
      let decoded : inner_decode b (record { address = from; bytes = (datagram b packet).bytes })
            time
          ≡ ok (DecodedCommon.fragment (arrived packet from time)) =
        rw (as_raw-framed b packet (inl release)) at sent in
      rw (decode_for_server, decoded) refl

  receive_fragment :
      {R : Type 0} (s : Server) (peer after : Peer Connected) (payload : Option Payload) (total : ℕ)
      (scheduled : Scheduled R Fragment)
      → IsOf id total scheduled
      → get id s.connected ≡ some peer
      → reassemble (track peer first ack) (arrived (into_packet scheduled first ack 0) from time)
        ≡ ok (after, payload)
      → (s' : Server) × (on_received b s
            (record {
              address = from;
              bytes = (datagram b (into_packet scheduled first ack 0)).bytes;
            })
            packet_id
            time
          ≡ done s' false)
        × (get id s'.connected ≡ some after)
        × (s'.api ≡ s.api ++ events id payload)
  unfolding into_packet
  receive_fragment s peer after payload total scheduled is_of found reassembled =
      let packet = into_packet scheduled first ack 0 in
      let (s', handled, found', told) =
        on_fragment_step s (arrived packet from time) time peer after payload
          (rw is_of.own_id found) reassembled in
      (
        s',
        on_received-fragment s packet fits is_of.fits_message ∙ handled,
        rw (sym is_of.own_id) found',
        rw (sym is_of.own_id) told,
      )

  receive_rest :
      {R : Type 0} (rest : List (Scheduled R Fragment)) (s : Server) (peer : Peer Connected)
      (group : List (Packet Received Fragment)) (total : ℕ) (last : Scheduled R Fragment)
      → get id s.connected ≡ some peer
      → GroupsFit peer
      → get first peer.connection.reassembler ≡ some group
      → All (IsOf id total) rest
      → IsOf id total last
      → length group + length rest + 1 ≡ total
      → (s' : Server) × (receive_each b s from packet_id time
            (map (datagram b) (group_packets first ack (rest ++ (last ∷ []))))
          ≡ done s' tt)
        × (s'.api
            ≡ s.api
              ++ (ProtocolEvent.data_transfer id
                    (concat (payloads (group ++ arrivals first ack from time rest)))
                  ∷ []))
  unfolding receive_each into_packet track
  receive_rest [] s peer group total last found fit waiting all_of is_of count =
      let packet = arrived (into_packet last first ack 0) from time in
      let now = track peer first ack in
      let (s', one, found', told) =
        receive_fragment s peer (without now first) (some (concat (payloads group))) total last
          is_of found
          (reassemble_complete now packet group fit waiting
            (omega (arith, is_of.own_total, count))) in
      (s', rw one refl, rw (append-nil group) told)
  receive_rest (part ∷ rest) s peer group total last found fit waiting (is_part, all_of) is_of
        count =
      let packet = arrived (into_packet part first ack 0) from time in
      let now = track peer first ack in
      let grown = group ++ (packet ∷ []) in
      let after = with_group now first grown in
      let e =
        reassemble_partial now packet group waiting (ground (arith, is_part.own_total, count)) in
      let (s₁, one, found₁, told₁) =
        receive_fragment s peer after none total part is_part found e in
      let (s₂, others, told₂) =
        receive_rest rest s₁ after grown total last found₁ (fit_after now after packet none fit e)
          (get-insert_self first grown peer.connection.reassembler) all_of is_of
          (omega (arith, count, length-append group (packet ∷ []))) in
      (
        s₂,
        rw one others,
        rw
            (
              told₂,
              told₁,
              append-nil s.api,
              append_assoc group (packet ∷ []) (arrivals first ack from time rest),
            )
            refl,
      )

  payloads-arrivals :
      {R : Type 0} (list : List (Scheduled R Fragment))
      → payloads (arrivals first ack from time list)
        ≡ map (λ scheduled. scheduled.message.payload) list
  unfolding into_packet
  payloads-arrivals [] = refl
  payloads-arrivals (x ∷ list) = ap (λ l. x.message.payload ∷ l) (payloads-arrivals list)

  -- The datagrams of a group are reassembled: one event, with the payload of all but the last.
  pub receive_group :
      {R : Type 0} (s : Server) (peer : Peer Connected) (part : Scheduled R Fragment)
      (middle : List (Scheduled R Fragment)) (last : Scheduled R Fragment)
      → get id s.connected ≡ some peer
      → GroupsFit peer
      → get first peer.connection.reassembler ≡ none
      → All (IsOf id (length middle + 2)) (part ∷ middle)
      → IsOf id (length middle + 2) last
      → (s' : Server) × (receive_each b s from packet_id time
            (map (datagram b) (group_packets first ack (part ∷ (middle ++ (last ∷ [])))))
          ≡ done s' tt)
        × (s'.api ≡ s.api ++ (ProtocolEvent.data_transfer id (carried (part ∷ middle)) ∷ []))
  unfolding receive_each into_packet track
  receive_group s peer part middle last found fit missing (is_part, all_of) is_of =
      let packet = arrived (into_packet part first ack 0) from time in
      let now = track peer first ack in
      let group = packet ∷ [] in
      let after = with_group now first group in
      let e = reassemble_first now packet missing in
      let (s₁, one, found₁, told₁) =
        receive_fragment s peer after none (length middle + 2) part is_part found e in
      let (s₂, others, told₂) =
        receive_rest middle s₁ after group (length middle + 2) last found₁
          (fit_after now after packet none fit e)
          (get-insert_self first group peer.connection.reassembler) all_of is_of (omega arith) in
      (s₂, rw one others, rw (told₂, told₁, append-nil s.api, payloads-arrivals middle) refl)
