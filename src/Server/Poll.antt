-- ===== src/Server/Poll.antt =====
-- `Protocol::<Server>::poll` of antarc-protocol/src/server.rs. The events that it drains are
-- returned beside the server.
use antarc.Shared.{subst, sym, arith, ◌∙◌, ◌≡◌, refl, ap, List, [], ◌∷◌, All}
use antarc.Shared.HashMap.{get}
use antarc.Base.Results.{ok-injective, >>=-eq-ok, Result, ok, ◌>>=◌}
use antarc.Packets.Delivery.{Duration}
use antarc.Packets.Message.{ConnectionId}
use antarc.Peers
use antarc.Peers.{Peer, Connected}
use antarc.Peers.Groups.{GroupsFit, without}
use antarc.Peers.Poll.{Polled, kept, removed, poll-Polled, poll-GroupsFit}
use antarc.Events.{ProtocolEvent, ServerEvent}
use antarc.Reliability.{poll_handler}
use antarc.Server.{Server, server_reliability}
use antarc.Server.Tables.{keep_addresses, address_in, IsConnected, Connections}
use antarc.Server.Requests.{Inv}

-- `for peer in connected.values_mut() { peer.poll(now) }`
unfoldable pub poll_peers : Connections → Duration → Result Connections
poll_peers [] now = ok []
poll_peers ((connection_id, peer) ∷ peers) now = do
  peer' ← Peers.poll peer now
  peers' ← poll_peers peers now
  ok ((connection_id, peer') ∷ peers')

unfoldable pub poll : Server → Duration → Result (Server × List (ProtocolEvent ServerEvent))
unfolding poll_peers poll_handler
poll s now = do
  handler ← poll_handler s.reliability_handler now
  connected ← poll_peers s.connected now
  ok (record s { reliability_handler = handler; connected = connected; api = [] }, s.api)

poll_address :
    (peer peer' : Peer Connected) (now : Duration)
    → GroupsFit peer
    → Peers.poll peer now ≡ ok peer'
    → (peer'.address ≡ peer.address)
      × (peer'.connection.connection_id ≡ peer.connection.connection_id)
poll_address peer peer' now fit e = by_cases (poll-Polled peer now fit)
  where
    by_cases :
        Polled now peer (Peers.poll peer now)
        → (peer'.address ≡ peer.address)
          × (peer'.connection.connection_id ≡ peer.connection.connection_id)
    by_cases (kept k old) =
        let same : peer' ≡ peer = cc in
        (
          ap (λ (p : Peer Connected). p.address) same,
          ap (λ (p : Peer Connected). p.connection.connection_id) same,
        )
    by_cases (removed key group k entry fresh) =
        let same : peer' ≡ without peer key = cc in
        (
          ap (λ (p : Peer Connected). p.address) same,
          ap (λ (p : Peer Connected). p.connection.connection_id) same,
        )

-- The addresses of a table after `poll` are those before, and its peers fit.
record Same (before after : Connections) : Type 0 where
  addresses : (k : ConnectionId) → address_in (get k after) ≡ address_in (get k before)
  fit : All IsConnected after

poll_peers-Same :
    (peers : Connections) (now : Duration)
    → All IsConnected peers
    → (peers' : Connections) × (poll_peers peers now ≡ ok peers') × Same peers peers'
unfolding poll_peers get
poll_peers-Same [] now h = ([], refl, record { addresses = λ k. refl; fit = tt })
poll_peers-Same ((id, peer) ∷ peers) now h =
    let (peer', e, groups) = poll-GroupsFit peer now h.0.groups in
    let (address, own) = poll_address peer peer' now h.0.groups e in
    let (peers', e', same) = poll_peers-Same peers now h.1 in
    (
      (id, peer') ∷ peers',
      rw e (rw e'),
      record {
        addresses = λ k. ground (arith, same.addresses k);
        fit = (record { own_id = own ∙ h.0.own_id; groups = groups }, same.fit);
      },
    )

-- A poll that returns keeps the invariant, returns the events and clears them.
pub poll-Inv :
    (s s' : Server) (now : Duration) (events : List (ProtocolEvent ServerEvent))
    → poll s now ≡ ok (s', events)
    → Inv s
    → Inv s' × (s'.api ≡ []) × (events ≡ s.api)
unfolding poll
poll-Inv s s' now events returns inv =
    let (handler, e₁, rest₁) = >>=-eq-ok (poll_handler s.reliability_handler now) _ returns in
    let (connected, e₂, rest₂) = >>=-eq-ok (poll_peers s.connected now) _ rest₁ in
    let (connected', e₃, same) = poll_peers-Same s.connected now inv.peers_fit in
    let table : connected' ≡ connected = cc in
    let answer = ok-injective rest₂ in
    let kept : Same s.connected connected = subst (Same s.connected) table same in
    (
      subst (λ (a : Server × List (ProtocolEvent ServerEvent)). Inv a.0) answer
          (keep_addresses inv connected kept.addresses kept.fit),
      ap (λ (a : Server × List (ProtocolEvent ServerEvent)). a.0.api) (sym answer),
      ap (λ (a : Server × List (ProtocolEvent ServerEvent)). a.1) (sym answer),
    )
