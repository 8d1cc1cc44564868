-- ===== src/Client/Reassemble.antt =====
-- The reassembler of antarc-protocol/src/client/service.rs, which has its own copy of the code that
-- antarc-protocol/src/server/service.rs has for a received fragment (`Peers.Reassemble`).
use antarc.Shared.{
  true, false, Bool, ℕ, List, [], ◌∷◌, ◌++◌, Option, none, some, ◌==◌, length, refl, ap, ◌∙◌, ◌≡◌,
}
use antarc.Shared.HashMap.{get, insert, remove}
use antarc.Base.Results.{Result, ok, ◌>>=◌, unwrap}
use antarc.Packets.Delivery.{Received}
use antarc.Packets.Message.{Fragment, Payload}
use antarc.Packets.Packet.{Packet}
use antarc.Packets.Reassembly.{from_fragments}
use antarc.Peers.{Peer, Connected}
use antarc.Peers.Reassemble
use antarc.Peers.Reassemble.{sort_by_sequence}

abbrev put_group : Peer Connected → ℕ → List (Packet Received Fragment) → Peer Connected
put_group peer fragment_id fragments = record peer {
  connection = record peer.connection {
    reassembler = insert fragment_id fragments peer.connection.reassembler;
  };
}

-- `let last_fragment = match peer.connection.reassembler.get_mut(&fragment_id)`
unfoldable pub add_fragment : Peer Connected → Packet Received Fragment → Peer Connected × Bool
add_fragment peer packet = elim (get packet.sequence peer.connection.reassembler) [
  | some fragments ↦
      let fragments' = fragments ++ (packet ∷ []) in
      (put_group peer packet.sequence fragments', length fragments' == packet.message.total)
  | none ↦ (put_group peer packet.sequence (packet ∷ []), false)
]

-- `if last_fragment { … }`: the group leaves the reassembler and becomes one payload.
unfoldable pub complete_group : Peer Connected → ℕ → Result (Peer Connected × Payload)
unfolding sort_by_sequence from_fragments
complete_group peer fragment_id = do
  fragments ← unwrap (get fragment_id peer.connection.reassembler)
  packet ← from_fragments (sort_by_sequence fragments)
  ok (
    record peer {
      connection = record peer.connection {
        reassembler = remove fragment_id peer.connection.reassembler;
      };
    },
    packet.message.payload,
  )

unfoldable pub finish_group : Peer Connected × Bool → ℕ → Result (Peer Connected × Option Payload)
unfolding complete_group
finish_group (peer, true) fragment_id = do
  (peer', payload) ← complete_group peer fragment_id
  ok (peer', some payload)
finish_group (peer, false) fragment_id = ok (peer, none)

-- Both steps: the peer, and the payload to report if the group is complete.
unfoldable pub reassemble :
    Peer Connected → Packet Received Fragment → Result (Peer Connected × Option Payload)
unfolding add_fragment finish_group
reassemble peer packet = finish_group (add_fragment peer packet) packet.sequence

add_fragment_alike :
    (peer : Peer Connected) (packet : Packet Received Fragment)
    → add_fragment peer packet ≡ Reassemble.add_fragment peer packet
unfolding add_fragment Reassemble.add_fragment
add_fragment_alike peer packet = refl

finish_group_alike :
    (added : Peer Connected × Bool) (fragment_id : ℕ)
    → finish_group added fragment_id ≡ Reassemble.finish_group added fragment_id
unfolding finish_group Reassemble.finish_group complete_group Reassemble.complete_group
finish_group_alike (peer, true) fragment_id = refl
finish_group_alike (peer, false) fragment_id = refl

-- The two copies do the same.
pub reassemble_alike :
    (peer : Peer Connected) (packet : Packet Received Fragment)
    → reassemble peer packet ≡ Reassemble.reassemble peer packet
unfolding reassemble Reassemble.reassemble
reassemble_alike peer packet =
    ap (λ added. finish_group added packet.sequence) (add_fragment_alike peer packet)
    ∙ finish_group_alike (Reassemble.add_fragment peer packet) packet.sequence
