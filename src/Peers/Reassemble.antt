-- ===== src/Peers/Reassemble.antt =====
-- The reassembler of antarc-protocol/src/server/service.rs on a received fragment;
-- antarc-protocol/src/client/service.rs has a copy of its own (`Client.Reassemble`).
use antarc.Shared.{
  true, false, false, Bool, ℕ, List, [], ◌∷◌, ◌++◌, Option, none, some, leb, ◌==◌, if◌then◌else◌,
  length,
}
use antarc.Shared.HashMap.{get, insert, remove}
use antarc.Base.Results.{Result, ok, ◌>>=◌, unwrap}
use antarc.Packets.Delivery.{Received}
use antarc.Packets.Message.{Fragment, Payload}
use antarc.Packets.Packet.{Packet}
use antarc.Packets.Reassembly.{from_fragments}
use antarc.Peers.{Peer, Connected}

-- `sort_by(|a, b| a.sequence.cmp(&b.sequence))`, which is stable.
unfoldable pub insert_sorted :
    Packet Received Fragment → List (Packet Received Fragment) → List (Packet Received Fragment)
insert_sorted packet [] = packet ∷ []
insert_sorted packet (other ∷ rest) =
    if leb packet.sequence other.sequence
    then packet ∷ other ∷ rest
    else other ∷ insert_sorted packet rest

unfoldable pub sort_by_sequence : List (Packet Received Fragment) → List (Packet Received Fragment)
unfolding insert_sorted
sort_by_sequence [] = []
sort_by_sequence (packet ∷ rest) = insert_sorted packet (sort_by_sequence rest)

abbrev pub with_group : Peer Connected → ℕ → List (Packet Received Fragment) → Peer Connected
with_group peer fragment_id fragments = record peer {
  connection = record peer.connection {
    reassembler = insert fragment_id fragments peer.connection.reassembler;
  };
}

-- `reassembler.get_mut(&fragment_id)` and the two branches behind it: the peer with the
-- fragment added, and whether it was the last one.
unfoldable pub add_fragment : Peer Connected → Packet Received Fragment → Peer Connected × Bool
add_fragment peer packet = elim (get packet.sequence peer.connection.reassembler) [
  | none ↦ (with_group peer packet.sequence (packet ∷ []), false)
  | some fragments ↦
      let fragments' = fragments ++ (packet ∷ []) in
      (with_group peer packet.sequence fragments', length fragments' == packet.message.total)
]

-- `if last_fragment { … }`: the group leaves the reassembler and becomes one payload.
unfoldable pub complete_group : Peer Connected → ℕ → Result (Peer Connected × Payload)
unfolding sort_by_sequence from_fragments
complete_group peer fragment_id = do
  fragments ← unwrap (get fragment_id peer.connection.reassembler)
  packet ← from_fragments (sort_by_sequence fragments)
  ok (
    record peer {
      connection = record peer.connection {
        reassembler = remove fragment_id peer.connection.reassembler;
      };
    },
    packet.message.payload,
  )

unfoldable pub finish_group : Peer Connected × Bool → ℕ → Result (Peer Connected × Option Payload)
unfolding complete_group
finish_group (peer, true) fragment_id = do
  (peer', payload) ← complete_group peer fragment_id
  ok (peer', some payload)
finish_group (peer, false) fragment_id = ok (peer, none)

-- Both steps: the peer, and the payload to report if the group is complete.
unfoldable pub reassemble :
    Peer Connected → Packet Received Fragment → Result (Peer Connected × Option Payload)
unfolding add_fragment finish_group
reassemble peer packet = finish_group (add_fragment peer packet) packet.sequence
