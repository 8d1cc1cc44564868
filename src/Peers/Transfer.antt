-- ===== src/Peers/Transfer.antt =====
-- A payload that arrives in fragments, one after the other, at a peer of antarc-protocol/src/peers.rs.
use antarc.Shared.{
  append-nil, ℕ, ◌+◌, ◌≡◌, refl, sym, subst, none, some, Option, [], ◌∷◌, ◌++◌, List, length,
  concat, All, arith, append_assoc, length-append,
}
use antarc.Shared.HashMap.{get, get-insert_self, get-remove_self}
use antarc.Base.Results.{Result, ok, ◌>>=◌}
use antarc.Packets.Delivery.{Received}
use antarc.Packets.Message.{Fragment, Payload, Sequence}
use antarc.Packets.Packet.{Packet}
use antarc.Packets.Reassembly.{payloads}
use antarc.Peers.{Peer, Connected}
use antarc.Peers.Reassemble.{reassemble, with_group}
use antarc.Peers.Groups.{
  GroupsFit, without, reassemble_complete, reassemble_partial, reassemble_first,
  reassemble-GroupsFit,
}

-- The payload that a fragment completed, if it did.
abbrev pub reported : Option Payload → List Payload → List Payload
reported none rest = rest
reported (some payload) rest = payload ∷ rest

-- Fragments received one after the other: the peer then, and the payloads reported.
unfoldable pub reassemble_all :
    Peer Connected → List (Packet Received Fragment) → Result (Peer Connected × List Payload)
reassemble_all peer [] = ok (peer, [])
reassemble_all peer (packet ∷ packets) = do
  (peer', payload) ← reassemble peer packet
  (peer'', rest) ← reassemble_all peer' packets
  ok (peer'', reported payload rest)

-- A fragment of the group `key` of `total` fragments.
abbrev pub IsPart : Sequence → ℕ → Packet Received Fragment → Type 0
IsPart key total packet = (packet.sequence ≡ key) × (packet.message.total ≡ total)

pub fit_after :
    (peer peer' : Peer Connected) (packet : Packet Received Fragment) (payload : Option Payload)
    → GroupsFit peer
    → reassemble peer packet ≡ ok (peer', payload)
    → GroupsFit peer'
fit_after peer peer' packet payload fit e =
    let (after, outcome, e', same, own, fit') = reassemble-GroupsFit peer packet fit in
    let equal : after ≡ peer' = cc in subst GroupsFit equal fit'

-- The outcome of a group: its payload alone is reported, the last part's excepted, and the group
-- is gone.
abbrev pub Transferred :
    Sequence → List (Packet Received Fragment) → Result (Peer Connected × List Payload) → Type 0
Transferred key front outcome =
    (peer : Peer Connected) × (outcome ≡ ok (peer, concat (payloads front) ∷ []))
    × (get key peer.connection.reassembler ≡ none)

transfer_rest :
    (rest : List (Packet Received Fragment)) (peer : Peer Connected)
    (last : Packet Received Fragment) (group : List (Packet Received Fragment)) (total : ℕ)
    → GroupsFit peer
    → All (IsPart last.sequence total) rest
    → last.message.total ≡ total
    → get last.sequence peer.connection.reassembler ≡ some group
    → length group + length rest + 1 ≡ total
    → Transferred last.sequence (group ++ rest) (reassemble_all peer (rest ++ (last ∷ [])))
unfolding reassemble_all
transfer_rest [] peer last group total fit parts own found count =
    let e = reassemble_complete peer last group fit found (omega (arith, own, count)) in
    (
      without peer last.sequence,
      rw (e, append-nil group) refl,
      get-remove_self last.sequence peer.connection.reassembler,
    )
transfer_rest (packet ∷ rest) peer last group total fit ((key, size), parts) own found count =
    let e = reassemble_partial peer packet group (rw key found) (ground (arith, size, count)) in
    let grown = group ++ (packet ∷ []) in
    let now = with_group peer packet.sequence grown in
    let found' : get last.sequence now.connection.reassembler ≡ some grown =
      rw (sym key) (get-insert_self packet.sequence grown peer.connection.reassembler) in
    let (after, e', gone) =
      transfer_rest rest now last grown total (fit_after peer now packet none fit e) parts own
        found' (omega (arith, count, length-append group (packet ∷ []))) in
    (after, rw (e, e', append_assoc group (packet ∷ []) rest) refl, gone)

-- A group of two fragments or more, all of one sequence and of the group's total, that arrives in any
-- order at a peer that has no fragment of it, is reassembled: one payload is reported, that of the
-- fragments in the order of their arrival without the payload of the last to arrive, and
-- the group is gone.
pub reassemble_all_lem :
    (peer : Peer Connected) (first : Packet Received Fragment)
    (middle : List (Packet Received Fragment)) (last : Packet Received Fragment)
    → GroupsFit peer
    → get last.sequence peer.connection.reassembler ≡ none
    → All (IsPart last.sequence (length middle + 2)) (first ∷ middle)
    → last.message.total ≡ length middle + 2
    → Transferred last.sequence
        (first ∷ middle)
        (reassemble_all peer (first ∷ (middle ++ (last ∷ []))))
unfolding reassemble_all
reassemble_all_lem peer first middle last fit missing ((key, size), parts) own =
    let e = reassemble_first peer first (rw key missing) in
    let group = first ∷ [] in
    let now = with_group peer first.sequence group in
    let found : get last.sequence now.connection.reassembler ≡ some group =
      rw (sym key) (get-insert_self first.sequence group peer.connection.reassembler) in
    let (after, e', gone) =
      transfer_rest middle now last group (length middle + 2) (fit_after peer now first none fit e)
        parts own found (omega arith) in
    (after, rw (e, e') refl, gone)
