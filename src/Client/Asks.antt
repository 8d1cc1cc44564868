-- ===== src/Client/Asks.antt =====
-- `connect` of antarc-protocol/src/client/service.rs keeps the invariant of the tables.
use antarc.Shared.{
  sym, Bool-cases, subst, ◌≡◌, ◌≢◌, arith, false, [], ◌∷◌, none, some, inl, inr, ◌==◌, any,
}
use antarc.Shared.HashMap.{HashMap, get, insert, values}
use antarc.Base.Errors.{already_connecting_to_peer, ProtocolError, SocketAddr}
use antarc.Base.Results.{Reply, done, failed}
use antarc.Packets.Delivery.{Duration, PacketId}
use antarc.Packets.Message.{ConnectionId}
use antarc.Peers.{Peer, Connected, new_peer}
use antarc.Client.{Client, connect, known_peer}
use antarc.Client.Tables.{Addresses, request}
use antarc.Client.Invariant.{ClientInv}

any_address-get :
    (address : SocketAddr) (peers : HashMap (Peer Connected)) (k : ConnectionId)
    (peer : Peer Connected)
    → any (λ (p : Peer Connected). p.address == address) (values peers) ≡ false
    → get k peers ≡ some peer
    → peer.address ≢ address
unfolding get
any_address-get address [] k peer h e = cc
any_address-get address ((j, other) ∷ peers) k peer h e =
    ground (arith, any_address-get address peers k peer)

-- An address that the client does not know awaits no ack and is no connected peer's.
unknown_address :
    (c : Client) (address : SocketAddr)
    → known_peer c address ≡ false
    → (get address c.awaiting_connection_ack ≡ none)
      × (any (λ (p : Peer Connected). p.address == address) (values c.connected) ≡ false)
unfolding known_peer
unknown_address c address unknown = ground arith

connect_unknown :
    (c : Client) (address : SocketAddr) (time : Duration)
    → ClientInv c
    → known_peer c address ≡ false
    → Addresses
        (insert address (new_peer time address 0) c.requesting_connection)
        c.awaiting_connection_ack
        c.connected
unfolding new_peer
connect_unknown c address time inv unknown =
    let (missing, elsewhere) = unknown_address c address unknown in
    request inv (new_peer time address 0) missing
      (λ k p h. any_address-get address c.connected k p elsewhere h)

failed-ne-done :
    {P : Type 0} {c c' : Client} {e : ProtocolError}
    → Path (Reply Client (Unit {0})) (failed c e) (done c' tt)
    → P
failed-ne-done h = cc

done-injective : {c c' : Client} → Path (Reply Client (Unit {0})) (done c tt) (done c' tt) → c ≡ c'
done-injective h = cc

-- A `connect` that is done keeps the invariant.
pub connect-ClientInv :
    (c c' : Client) (address : SocketAddr) (packet_id : PacketId) (time : Duration)
    → ClientInv c
    → connect c address packet_id time ≡ done c' tt
    → ClientInv c'
unfolding connect
connect-ClientInv c c' address packet_id time inv h = elim (Bool-cases (known_peer c address)) [
  | inl known ↦ failed-ne-done (rw (connect, known) at h)
  | inr unknown ↦
      subst ClientInv (done-injective (rw (connect, unknown) at h))
        (connect_unknown c address time inv unknown)
]

-- A `connect` that is refused changes nothing.
pub connect_refused :
    (c c' : Client) (address : SocketAddr) (packet_id : PacketId) (time : Duration)
    (problem : ProtocolError)
    → connect c address packet_id time ≡ failed c' problem
    → c' ≡ c
unfolding connect
connect_refused c c' address packet_id time problem h = elim (Bool-cases (known_peer c address)) [
  | inl known ↦
      let refused : Path (Reply Client (Unit {0})) (failed c (already_connecting_to_peer address))
          (failed c' problem) =
        rw (connect, known) at h in
      cc
  | inr unknown ↦ failed-ne-done (sym (rw (connect, unknown) at h))
]
