-- ===== src/Peers/Groups.antt =====
-- The reassembler of antarc-protocol/src/peers.rs: its invariant, and what a group of
-- fragments becomes.
use antarc.Shared.{
  ℕ_discrete, length-append, ne→==, ==_iff, ℕ, ◌≡◌, ◌≢◌, ◌+◌, refl, List, [], ◌∷◌, ◌++◌, Option,
  none, some, All, arith, length, concat, ◌==◌, Option-cases, inl, inr, false, All-append,
}
use antarc.Shared.HashMap.{
  remove-insert, get-insert_self, HashMap, get, remove, All-insert, All-remove, All-get,
}
use antarc.Base.Results.{Result, ok}
use antarc.Packets.Delivery.{Received}
use antarc.Packets.Message.{Fragment, Payload}
use antarc.Packets.Packet.{Packet}
use antarc.Packets.Reassembly.{from_fragments-append, payloads}
use antarc.Peers.{Peer, Connected}
use antarc.Peers.Reassemble.{
  finish_group, with_group, insert_sorted, sort_by_sequence, add_fragment, complete_group,
  reassemble,
}

-- A group is not empty, and its fragments carry the sequence that is its key.
pub record IsGroup (group : ℕ × List (Packet Received Fragment)) : Type 0 where
  pub started : group.1 ≢ []
  pub keyed : All (λ (fragment : Packet Received Fragment). fragment.sequence ≡ group.0) group.1

abbrev pub GroupsFit : Peer Connected → Type 0
GroupsFit peer = All IsGroup peer.connection.reassembler

abbrev SameSequence : ℕ → List (Packet Received Fragment) → Type 0
SameSequence n = All (λ (fragment : Packet Received Fragment). fragment.sequence ≡ n)

insert_sorted-SameSequence :
    (n : ℕ) (packet : Packet Received Fragment) (group : List (Packet Received Fragment))
    → packet.sequence ≡ n
    → SameSequence n group
    → insert_sorted packet group ≡ packet ∷ group
unfolding insert_sorted
insert_sorted-SameSequence n packet [] e h = refl
insert_sorted-SameSequence n packet (other ∷ rest) e h = ground arith

-- Sorting a group by sequence leaves it as it is.
pub sort_by_sequence-SameSequence :
    (n : ℕ) (group : List (Packet Received Fragment))
    → SameSequence n group
    → sort_by_sequence group ≡ group
unfolding sort_by_sequence
sort_by_sequence-SameSequence n [] h = refl
sort_by_sequence-SameSequence n (packet ∷ rest) h =
    rw (sort_by_sequence-SameSequence n rest h.1) (insert_sorted-SameSequence n packet rest h.0 h.1)

snoc-ne-nil : {A : Type 0} (xs : List A) (x : A) → xs ++ (x ∷ []) ≢ []
snoc-ne-nil [] x = λ e. cc
snoc-ne-nil (y ∷ xs) x = λ e. cc

extended :
    (key : ℕ) (group : List (Packet Received Fragment)) (packet : Packet Received Fragment)
    → IsGroup (key, group)
    → packet.sequence ≡ key
    → IsGroup (key, group ++ (packet ∷ []))
extended key group packet h e = record {
  started = snoc-ne-nil group packet;
  keyed = All-append _ group (packet ∷ []) h.keyed (e, tt);
}

pub add_fragment-GroupsFit :
    (peer : Peer Connected) (packet : Packet Received Fragment)
    → GroupsFit peer
    → GroupsFit (add_fragment peer packet).0
unfolding add_fragment
add_fragment-GroupsFit peer packet h =
    elim (Option-cases (get packet.sequence peer.connection.reassembler)) [
      | inl e ↦
          rw (e, add_fragment)
            (All-insert IsGroup packet.sequence (packet ∷ []) peer.connection.reassembler
              (record { started = λ e. cc; keyed = (refl, tt) }) h)
      | inr (group, e) ↦
          rw (e, add_fragment)
            (All-insert IsGroup packet.sequence (group ++ (packet ∷ [])) peer.connection.reassembler
              (extended packet.sequence group packet
                (All-get IsGroup packet.sequence group peer.connection.reassembler h e) refl)
              h)
    ]

-- The peer with the group `key` gone.
abbrev pub without : Peer Connected → ℕ → Peer Connected
without peer key = record peer {
  connection = record peer.connection { reassembler = remove key peer.connection.reassembler };
}

complete_group-append :
    (peer : Peer Connected) (key : ℕ) (front : List (Packet Received Fragment))
    (packet : Packet Received Fragment)
    → get key peer.connection.reassembler ≡ some (front ++ (packet ∷ []))
    → SameSequence key (front ++ (packet ∷ []))
    → complete_group peer key ≡ ok (without peer key, concat (payloads front))
unfolding complete_group
complete_group-append peer key front packet e same = rw (
  e,
  sort_by_sequence-SameSequence key (front ++ (packet ∷ [])) same,
  from_fragments-append front packet,
)

add_fragment_found :
    (peer : Peer Connected) (packet : Packet Received Fragment)
    (group : List (Packet Received Fragment))
    → get packet.sequence peer.connection.reassembler ≡ some group
    → add_fragment peer packet ≡ (
      with_group peer packet.sequence (group ++ (packet ∷ [])),
      length group + 1 == packet.message.total,
    )
unfolding add_fragment
add_fragment_found peer packet group e = rw (e, add_fragment, length-append group (packet ∷ []))

-- On groups that fit, a fragment that brings its group to its total takes the group out of the reassembler. The
-- payload that is reported is made of the fragments received before it, in the order of their
-- arrival: neither their `index` nor the payload of the fragment itself has a part in it.
pub reassemble_complete :
    (peer : Peer Connected) (packet : Packet Received Fragment)
    (group : List (Packet Received Fragment))
    → GroupsFit peer
    → get packet.sequence peer.connection.reassembler ≡ some group
    → length group + 1 ≡ packet.message.total
    → reassemble peer packet ≡ ok (without peer packet.sequence, some (concat (payloads group)))
unfolding reassemble finish_group
reassemble_complete peer packet group h e full =
    let m : HashMap (List (Packet Received Fragment)) = peer.connection.reassembler in
    let group' : List (Packet Received Fragment) = group ++ (packet ∷ []) in
    rw (
      add_fragment_found peer packet group e,
      (==_iff (length group + 1) packet.message.total).1 full,
      complete_group-append (with_group peer packet.sequence group') packet.sequence group packet
          (get-insert_self packet.sequence group' m)
          (extended packet.sequence group packet (All-get IsGroup packet.sequence group m h e)
            refl).keyed,
      remove-insert packet.sequence group' m,
    )

-- Any other fragment of the group waits in it.
pub reassemble_partial :
    (peer : Peer Connected) (packet : Packet Received Fragment)
    (group : List (Packet Received Fragment))
    → get packet.sequence peer.connection.reassembler ≡ some group
    → length group + 1 ≢ packet.message.total
    → reassemble peer packet ≡ ok (with_group peer packet.sequence (group ++ (packet ∷ [])), none)
unfolding reassemble finish_group
reassemble_partial peer packet group e unfinished =
    let test : (length group + 1 == packet.message.total) ≡ false =
      ne→== (length group + 1) packet.message.total unfinished in
    rw (add_fragment_found peer packet group e, test)

-- So does the first fragment of a group, even if it is to be the only one.
pub reassemble_first :
    (peer : Peer Connected) (packet : Packet Received Fragment)
    → get packet.sequence peer.connection.reassembler ≡ none
    → reassemble peer packet ≡ ok (with_group peer packet.sequence (packet ∷ []), none)
unfolding reassemble add_fragment finish_group
reassemble_first peer packet e = rw (e, add_fragment)

-- No branch panics, the groups still fit, and the address and the id stay.
abbrev pub Reassembled : Peer Connected → Result (Peer Connected × Option Payload) → Type 0
Reassembled before outcome =
    (peer : Peer Connected) × (payload : Option Payload) × (outcome ≡ ok (peer, payload))
    × (peer.address ≡ before.address)
    × (peer.connection.connection_id ≡ before.connection.connection_id)
    × GroupsFit peer

-- On groups that fit, a fragment is reassembled without a panic; the groups of the peer that comes
-- out fit, and it has the address and the connection id it had.
pub reassemble-GroupsFit :
    (peer : Peer Connected) (packet : Packet Received Fragment)
    → GroupsFit peer
    → Reassembled peer (reassemble peer packet)
reassemble-GroupsFit peer packet h =
    let m : HashMap (List (Packet Received Fragment)) = peer.connection.reassembler in
    elim (Option-cases (get packet.sequence m)) [
      | inl e ↦ (
        with_group peer packet.sequence (packet ∷ []),
        none,
        reassemble_first peer packet e,
        refl,
        refl,
        All-insert IsGroup packet.sequence (packet ∷ []) m
            (record { started = λ e. cc; keyed = (refl, tt) }) h,
      )
      | inr (group, e) ↦ elim (ℕ_discrete (length group + 1) packet.message.total) [
        | yes full ↦ (
          without peer packet.sequence,
          some (concat (payloads group)),
          reassemble_complete peer packet group h e full,
          refl,
          refl,
          All-remove IsGroup packet.sequence m h,
        )
        | no unfinished ↦ (
          with_group peer packet.sequence (group ++ (packet ∷ [])),
          none,
          reassemble_partial peer packet group e unfinished,
          refl,
          refl,
          All-insert IsGroup packet.sequence (group ++ (packet ∷ [])) m
              (extended packet.sequence group packet (All-get IsGroup packet.sequence group m h e)
                refl)
              h,
        )
      ]
    ]
