-- ===== src/Peers/Advance.antt =====
-- The sequence tracker of a peer (antarc-protocol/src/peers.rs), which the `sent_` methods of
-- both services move on.
use antarc.Shared.{◌+◌, ◌<◌, ◌≡◌, ◌⊎◌, inl, inr, some, arith, Option-cases, lt→ltb}
use antarc.Shared.HashMap.{HashMap, get, insert}
use antarc.Base.Results.{ok, panic}
use antarc.Base.Words.{u32_mod, checked_succ}
use antarc.Packets.Message.{ConnectionId}
use antarc.Peers.{Peer, advance, next_sequence}

module _ {C : Type 0} (id : ConnectionId) (peers : HashMap (Peer C)) where
  -- `advance` leaves the map alone where it has no such peer, and moves the peer to its next
  -- sequence otherwise.
  pub advance_ok :
      (peers' : HashMap (Peer C))
      → advance id peers ≡ ok peers'
      → (peers' ≡ peers)
        ⊎ ((peer : Peer C) × (get id peers ≡ some peer)
            × (peers'
                ≡ insert id (record peer { sequence_tracker = peer.sequence_tracker + 1 }) peers))
  unfolding advance next_sequence checked_succ
  advance_ok peers' h = elim (Option-cases (get id peers)) [
    | inl e ↦ inl (ground arith)
    | inr (peer, e) ↦ inr (peer, e, ground arith)
  ]

  -- The tracker of a peer below the last u32 moves on by one.
  pub advance_found :
      (peer : Peer C)
      → get id peers ≡ some peer
      → peer.sequence_tracker + 1 < u32_mod
      → advance id peers
        ≡ ok (insert id (record peer { sequence_tracker = peer.sequence_tracker + 1 }) peers)
  unfolding advance next_sequence checked_succ
  advance_found peer e room = rw (e, advance, next_sequence, checked_succ, lt→ltb _ _ room)

  -- At the last u32 the call panics.
  pub advance_full :
      (peer : Peer C)
      → get id peers ≡ some peer
      → peer.sequence_tracker + 1 ≡ u32_mod
      → advance id peers ≡ panic
  unfolding advance next_sequence checked_succ
  advance_full peer e full = ground arith
