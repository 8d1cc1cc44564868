-- ===== src/Client/Tables.antt =====
-- The three tables of peers of antarc-protocol/src/client/service.rs: their invariant, and the
-- updates that keep it.
use antarc.Shared.{◌≡◌, ◌≢◌, none, some, All, arith, ◌⊎◌}
use antarc.Shared.HashMap.{HashMap, get, insert, remove, get-insert, get-remove, All-insert}
use antarc.Base.Errors.{SocketAddr}
use antarc.Packets.Message.{ConnectionId}
use antarc.Peers.{Peer, RequestingConnection, AwaitingConnectionAck, Connected}
use antarc.Peers.Groups.{GroupsFit}
use antarc.Server.Tables.{IsConnected}

-- A peer that requests or awaits carries its own key; no address is in two tables, and no two
-- connected peers share one; a connected peer carries its own id, and its groups fit.
pub record Addresses (requesting : HashMap (Peer RequestingConnection))
    (awaiting : HashMap (Peer AwaitingConnectionAck)) (connected : HashMap (Peer Connected))
    : Type 0 where
  pub requesting_own :
      (a : SocketAddr) (p : Peer RequestingConnection) → get a requesting ≡ some p → p.address ≡ a
  pub awaiting_own :
      (a : SocketAddr) (p : Peer AwaitingConnectionAck) → get a awaiting ≡ some p → p.address ≡ a
  pub apart : (a : SocketAddr) → (get a requesting ≡ none) ⊎ (get a awaiting ≡ none)
  pub fresh :
      (k : ConnectionId) (p : Peer Connected)
      → get k connected ≡ some p
      → (get p.address requesting ≡ none) × (get p.address awaiting ≡ none)
  pub distinct :
      (i j : ConnectionId) (p q : Peer Connected)
      → get i connected ≡ some p
      → get j connected ≡ some q
      → p.address ≡ q.address
      → i ≡ j
  pub peers_fit : All IsConnected connected

module _ {requesting : HashMap (Peer RequestingConnection)}
    {awaiting : HashMap (Peer AwaitingConnectionAck)} {connected : HashMap (Peer Connected)}
    (inv : Addresses requesting awaiting connected) where
  -- A connected peer changes, but for its address and its id.
  pub update_connected :
      (id : ConnectionId) (peer peer' : Peer Connected)
      → get id connected ≡ some peer
      → peer'.address ≡ peer.address
      → peer'.connection.connection_id ≡ id
      → GroupsFit peer'
      → Addresses requesting awaiting (insert id peer' connected)
  update_connected id peer peer' known same own fit = record {
    requesting_own = inv.requesting_own;
    awaiting_own = inv.awaiting_own;
    apart = inv.apart;
    fresh = λ k p h.
        ground (arith, get-insert id k peer' connected, inv.fresh k p, inv.fresh id peer known);
    distinct = λ i j p q hi hj e. ground (
      arith,
      get-insert id i peer' connected,
      get-insert id j peer' connected,
      inv.distinct i j p q,
      inv.distinct id j peer q,
      inv.distinct i id p peer,
    );
    peers_fit =
        All-insert IsConnected id peer' connected (record { own_id = own; groups = fit })
          inv.peers_fit;
  }

  -- A peer that awaited an ack becomes connected, under an id of the server's.
  pub promote :
      (address : SocketAddr) (id : ConnectionId) (peer : Peer AwaitingConnectionAck)
      (peer' : Peer Connected)
      → get address awaiting ≡ some peer
      → peer'.address ≡ peer.address
      → peer'.connection.connection_id ≡ id
      → GroupsFit peer'
      → Addresses requesting (remove address awaiting) (insert id peer' connected)
  promote address id peer peer' known same own fit = record {
    requesting_own = inv.requesting_own;
    awaiting_own = λ a p h. ground (arith, get-remove address a awaiting, inv.awaiting_own a p);
    apart = λ a. ground (arith, get-remove address a awaiting, inv.apart a);
    fresh = λ k p h. ground (
      arith,
      get-insert id k peer' connected,
      inv.fresh k p,
      get-remove address p.address awaiting,
      inv.awaiting_own address peer known,
      inv.apart address,
    );
    distinct = λ i j p q hi hj e. ground (
      arith,
      get-insert id i peer' connected,
      get-insert id j peer' connected,
      inv.distinct i j p q,
      inv.fresh i p,
      inv.fresh j q,
      inv.awaiting_own address peer known,
    );
    peers_fit =
        All-insert IsConnected id peer' connected (record { own_id = own; groups = fit })
          inv.peers_fit;
  }

  -- A peer at an address that no table knows is requested.
  pub request :
      (peer : Peer RequestingConnection)
      → get peer.address awaiting ≡ none
      → ((k : ConnectionId) (p : Peer Connected)
          → get k connected ≡ some p
          → p.address ≢ peer.address)
      → Addresses (insert peer.address peer requesting) awaiting connected
  request peer unknown elsewhere = record {
    requesting_own =
        λ a p h. ground (arith, get-insert peer.address a peer requesting, inv.requesting_own a p);
    awaiting_own = inv.awaiting_own;
    apart = λ a. ground (arith, get-insert peer.address a peer requesting, inv.apart a);
    fresh = λ k p h. ground (
      arith,
      get-insert peer.address p.address peer requesting,
      inv.fresh k p h,
      elsewhere k p h,
    );
    distinct = inv.distinct;
    peers_fit = inv.peers_fit;
  }

  -- A peer that was requested awaits an ack.
  pub await :
      (address : SocketAddr) (peer : Peer RequestingConnection) (peer' : Peer AwaitingConnectionAck)
      → get address requesting ≡ some peer
      → peer'.address ≡ peer.address
      → Addresses (remove address requesting) (insert address peer' awaiting) connected
  await address peer peer' known same = record {
    requesting_own =
        λ a p h. ground (arith, get-remove address a requesting, inv.requesting_own a p);
    awaiting_own = λ a p h. ground (
      arith,
      get-insert address a peer' awaiting,
      inv.awaiting_own a p,
      inv.requesting_own address peer known,
    );
    apart = λ a.
        ground (
          arith,
          get-insert address a peer' awaiting,
          get-remove address a requesting,
          inv.apart a,
        );
    fresh = λ k p h. ground (
      arith,
      get-insert address p.address peer' awaiting,
      get-remove address p.address requesting,
      inv.fresh k p h,
    );
    distinct = inv.distinct;
    peers_fit = inv.peers_fit;
  }
