-- ===== src/Server/Tables.antt =====
-- The three tables of peers of antarc-protocol/src/server/service.rs and the tracker of the
-- connection ids: their invariant, and the updates that keep it.
use antarc.Shared.{refl, ℕ, ◌+◌, ◌<◌, ◌≤◌, ◌≡◌, ◌≢◌, ◌∙◌, [], Option, none, some, All, arith, ◌⊎◌}
use antarc.Shared.HashMap.{HashMap, get, insert, remove, get-insert, get-remove, All-insert}
use antarc.Base.Errors.{SocketAddr}
use antarc.Base.Words.{u16_mod}
use antarc.Packets.Message.{ConnectionId}
use antarc.Peers.{Peer, RequestingConnection, AwaitingConnectionAck, Connected}
use antarc.Peers.Groups.{GroupsFit}

abbrev pub Awaiting : Type 0
Awaiting = HashMap (Peer AwaitingConnectionAck)

abbrev pub Connections : Type 0
Connections = HashMap (Peer Connected)

abbrev pub address_in : {C : Type 0} → Option (Peer C) → Option SocketAddr
address_in none = none
address_in (some peer) = some peer.address

-- The address of the peer with a connection id, in either table.
abbrev pub address_of : Awaiting → Connections → ConnectionId → Option SocketAddr
address_of awaiting connected k = elim (get k awaiting) [
  | some peer ↦ some peer.address
  | none ↦ address_in (get k connected)
]

-- A connected peer carries its own key, and its groups of fragments fit.
pub record IsConnected (entry : ℕ × Peer Connected) : Type 0 where
  pub own_id : entry.1.connection.connection_id ≡ entry.0
  pub groups : GroupsFit entry.1

-- Between two operations no peer is requesting; ids at the tracker or above are unused, and so
-- is zero; no id is in two tables; no two ids share an address.
pub record Tables (tracker : ConnectionId) (requesting : HashMap (Peer RequestingConnection))
    (awaiting : Awaiting) (connected : Connections) : Type 0 where
  pub tracker_pos : 0 < tracker
  pub tracker_range : tracker < u16_mod
  pub idle : requesting ≡ []
  pub awaiting_range : (k : ConnectionId) → (k ≡ 0) ⊎ (tracker ≤ k) → get k awaiting ≡ none
  pub connected_range : (k : ConnectionId) → (k ≡ 0) ⊎ (tracker ≤ k) → get k connected ≡ none
  pub apart : (k : ConnectionId) → (get k awaiting ≡ none) ⊎ (get k connected ≡ none)
  pub own_address :
      (i j : ConnectionId) (address : SocketAddr)
      → address_of awaiting connected i ≡ some address
      → address_of awaiting connected j ≡ some address
      → i ≡ j
  pub peers_fit : All IsConnected connected

module _ {tracker : ConnectionId} {requesting : HashMap (Peer RequestingConnection)}
    {awaiting : Awaiting} {connected : Connections}
    (inv : Tables tracker requesting awaiting connected) where
  -- A connected peer changes, but for its address and its id.
  pub update_connected :
      (id : ConnectionId) (peer peer' : Peer Connected)
      → get id connected ≡ some peer
      → peer'.address ≡ peer.address
      → peer'.connection.connection_id ≡ id
      → GroupsFit peer'
      → Tables tracker requesting awaiting (insert id peer' connected)
  update_connected id peer peer' known same own fit = record {
    tracker_pos = inv.tracker_pos;
    tracker_range = inv.tracker_range;
    idle = inv.idle;
    awaiting_range = inv.awaiting_range;
    connected_range =
        λ k h. ground (arith, get-insert id k peer' connected, inv.connected_range k h);
    apart = λ k. ground (arith, get-insert id k peer' connected, inv.apart k);
    own_address = λ i j address hi hj. inv.own_address i j address (old i ∙ hi) (old j ∙ hj);
    peers_fit =
        All-insert IsConnected id peer' connected (record { own_id = own; groups = fit })
          inv.peers_fit;
  }
    where
      old :
          (k : ConnectionId)
          → address_of awaiting connected k ≡ address_of awaiting (insert id peer' connected) k
      old k = ground (arith, get-insert id k peer' connected)

  -- A peer that awaits an ack changes, but for its address.
  pub update_awaiting :
      (id : ConnectionId) (peer peer' : Peer AwaitingConnectionAck)
      → get id awaiting ≡ some peer
      → peer'.address ≡ peer.address
      → Tables tracker requesting (insert id peer' awaiting) connected
  update_awaiting id peer peer' known same = record {
    tracker_pos = inv.tracker_pos;
    tracker_range = inv.tracker_range;
    idle = inv.idle;
    awaiting_range = λ k h. ground (arith, get-insert id k peer' awaiting, inv.awaiting_range k h);
    connected_range = inv.connected_range;
    apart = λ k. ground (arith, get-insert id k peer' awaiting, inv.apart k);
    own_address = λ i j address hi hj. inv.own_address i j address (old i ∙ hi) (old j ∙ hj);
    peers_fit = inv.peers_fit;
  }
    where
      old :
          (k : ConnectionId)
          → address_of awaiting connected k ≡ address_of (insert id peer' awaiting) connected k
      old k = ground (arith, get-insert id k peer' awaiting)

  -- A peer that awaited an ack becomes connected under its id.
  pub promote :
      (id : ConnectionId) (peer : Peer AwaitingConnectionAck) (peer' : Peer Connected)
      → get id awaiting ≡ some peer
      → peer'.address ≡ peer.address
      → peer'.connection.connection_id ≡ id
      → GroupsFit peer'
      → Tables tracker requesting (remove id awaiting) (insert id peer' connected)
  promote id peer peer' known same own fit = record {
    tracker_pos = inv.tracker_pos;
    tracker_range = inv.tracker_range;
    idle = inv.idle;
    awaiting_range = λ k h. ground (arith, get-remove id k awaiting, inv.awaiting_range k h);
    connected_range = λ k h.
        ground
          (arith, get-insert id k peer' connected, inv.connected_range k h, inv.awaiting_range k h);
    apart =
        λ k. ground (arith, get-insert id k peer' connected, get-remove id k awaiting, inv.apart k);
    own_address = λ i j address hi hj. inv.own_address i j address (old i ∙ hi) (old j ∙ hj);
    peers_fit =
        All-insert IsConnected id peer' connected (record { own_id = own; groups = fit })
          inv.peers_fit;
  }
    where
      old :
          (k : ConnectionId)
          → address_of awaiting connected k
            ≡ address_of (remove id awaiting) (insert id peer' connected) k
      old k = ground (arith, get-insert id k peer' connected, get-remove id k awaiting)

  -- A peer at an unknown address takes the next id.
  pub admit :
      (peer : Peer AwaitingConnectionAck)
      → tracker + 1 < u16_mod
      → ((k : ConnectionId) → address_of awaiting connected k ≢ some peer.address)
      → Tables (tracker + 1) [] (insert tracker peer awaiting) connected
  admit peer room unknown = record {
    tracker_pos = omega arith;
    tracker_range = room;
    idle = refl;
    awaiting_range = λ k h.
        ground (arith, get-insert tracker k peer awaiting, inv.awaiting_range k, inv.tracker_pos);
    connected_range = λ k h. ground (arith, inv.connected_range k);
    apart =
        λ k. ground (arith, get-insert tracker k peer awaiting, inv.apart k, inv.connected_range k);
    own_address = λ i j address hi hj. ground (
      arith,
      get-insert tracker i peer awaiting,
      get-insert tracker j peer awaiting,
      unknown i,
      unknown j,
      inv.own_address i j address,
    );
    peers_fit = inv.peers_fit;
  }

  -- The connected peers change, but for their ids and addresses.
  pub keep_addresses :
      (connected' : Connections)
      → ((k : ConnectionId) → address_in (get k connected') ≡ address_in (get k connected))
      → All IsConnected connected'
      → Tables tracker requesting awaiting connected'
  keep_addresses connected' same fit = record {
    tracker_pos = inv.tracker_pos;
    tracker_range = inv.tracker_range;
    idle = inv.idle;
    awaiting_range = inv.awaiting_range;
    connected_range = λ k h. ground (arith, same k, inv.connected_range k h);
    apart = λ k. ground (arith, same k, inv.apart k);
    own_address = λ i j address hi hj. ground (arith, same i, same j, inv.own_address i j address);
    peers_fit = fit;
  }
