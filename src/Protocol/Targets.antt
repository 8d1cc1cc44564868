-- ===== src/Protocol/Targets.antt =====
-- What `schedule_helper` and `heartbeat_helper` of antarc-protocol/src/lib.rs mean to queue: the
-- targets of a `SendTo`, and a scheduler with one packet for each target and fragment.
use antarc.Shared.{
  ℕ, ◌≡◌, refl, ap, List, [], ◌∷◌, ◌++◌, Option, none, some, map, append_assoc, append-nil,
}
use antarc.Shared.HashMap.{HashMap}
use antarc.Base.Errors.{SocketAddr}
use antarc.Packets.Delivery.{Duration, PacketId}
use antarc.Packets.Message.{ConnectionId, Payload}
use antarc.Packets.Scheduled.{
  ReliabilityType, new_unreliable_fragment, new_reliable_fragment, new_unreliable_data_transfer,
  new_reliable_data_transfer, new_reliable_heartbeat, new_unreliable_heartbeat,
}
use antarc.Peers.{Peer, Connected, SendTo, single, broadcast}
use antarc.Scheduler.{Scheduler}
use antarc.Protocol.{address_of}

abbrev pub Target : Type 0
Target = ConnectionId × SocketAddr

abbrev pub peer_target : ConnectionId × Peer Connected → Target
peer_target (connection_id, peer) = (connection_id, peer.address)

-- The targets, unless the one that is named is not connected.
abbrev pub targets : SendTo → HashMap (Peer Connected) → Option (List Target)
targets (single connection_id) connected = elim (address_of connection_id connected) [
  | none ↦ none
  | some address ↦ some ((connection_id, address) ∷ [])
]
targets broadcast connected = some (map peer_target connected)

only_target :
    (connection_id : ConnectionId) (found : Option SocketAddr) {ts : List Target}
    → elim found [ none ↦ none | some address ↦ some ((connection_id, address) ∷ []) ] ≡ some ts
    → (address : SocketAddr) × (found ≡ some address) × (ts ≡ (connection_id, address) ∷ [])
only_target connection_id none known = cc
only_target connection_id (some address) known = (address, refl, cc)

pub targets_single :
    (connection_id : ConnectionId) (connected : HashMap (Peer Connected)) {ts : List Target}
    → targets (single connection_id) connected ≡ some ts
    → (address : SocketAddr) × (address_of connection_id connected ≡ some address)
      × (ts ≡ (connection_id, address) ∷ [])
targets_single connection_id connected known =
    only_target connection_id (address_of connection_id connected) known

pub targets_broadcast :
    (connected : HashMap (Peer Connected)) {ts : List Target}
    → targets broadcast connected ≡ some ts
    → map peer_target connected ≡ ts
targets_broadcast connected known = cc

append-snoc : {A : Type 0} (xs ys zs : List A) → (xs ++ (ys ++ [])) ++ zs ≡ xs ++ (ys ++ zs)
append-snoc xs ys zs = rw (append-nil ys, append_assoc xs ys zs)

module _ {A : Type 0} (build : ℕ × Payload → Target → A) where
  -- Every fragment in turn, for every target.
  abbrev pub for_each : List Target → List (ℕ × Payload) → List A
  for_each ts [] = []
  for_each ts (fragment ∷ fragments) = map (build fragment) ts ++ for_each ts fragments

module _ {T : Type 0} (packet_id : PacketId) (time : Duration) where
  -- The scheduler with the fragments queued for the targets, behind what it holds.
  abbrev pub with_fragments :
      ReliabilityType → ℕ → List Target → List (ℕ × Payload) → Scheduler T → Scheduler T
  with_fragments ReliabilityType.reliable total ts fragments s = record s {
    list_scheduled_reliable_fragment =
        s.list_scheduled_reliable_fragment
        ++ for_each
            (λ fragment t. new_reliable_fragment packet_id t.0 fragment.1 fragment.0 total time t.1)
            ts fragments;
  }
  with_fragments ReliabilityType.unreliable total ts fragments s = record s {
    list_scheduled_unreliable_fragment =
        s.list_scheduled_unreliable_fragment
        ++ for_each
            (λ fragment t.
              new_unreliable_fragment packet_id t.0 fragment.1 fragment.0 total time t.1)
            ts fragments;
  }

  -- The scheduler with one data transfer queued for each target.
  abbrev pub with_data_transfers :
      ReliabilityType → List Target → Payload → Scheduler T → Scheduler T
  with_data_transfers ReliabilityType.reliable ts payload s = record s {
    list_scheduled_reliable_data_transfer =
        s.list_scheduled_reliable_data_transfer
        ++ map (λ t. new_reliable_data_transfer packet_id t.0 payload time t.1) ts;
  }
  with_data_transfers ReliabilityType.unreliable ts payload s = record s {
    list_scheduled_unreliable_data_transfer =
        s.list_scheduled_unreliable_data_transfer
        ++ map (λ t. new_unreliable_data_transfer packet_id t.0 payload time t.1) ts;
  }

  -- The scheduler with one heartbeat queued for each target.
  abbrev pub with_heartbeats : ReliabilityType → List Target → Scheduler T → Scheduler T
  with_heartbeats ReliabilityType.reliable ts s = record s {
    list_scheduled_reliable_heartbeat =
        s.list_scheduled_reliable_heartbeat
        ++ map (λ t. new_reliable_heartbeat packet_id t.0 time t.1) ts;
  }
  with_heartbeats ReliabilityType.unreliable ts s = record s {
    list_scheduled_unreliable_heartbeat =
        s.list_scheduled_unreliable_heartbeat
        ++ map (λ t. new_unreliable_heartbeat packet_id t.0 time t.1) ts;
  }

  pub with_fragments_nil :
      (reliability : ReliabilityType) (total : ℕ) (ts : List Target) (s : Scheduler T)
      → with_fragments reliability total ts [] s ≡ s
  with_fragments_nil ReliabilityType.reliable total ts s =
      ap (λ xs. record s { list_scheduled_reliable_fragment = xs }) (append-nil _)
  with_fragments_nil ReliabilityType.unreliable total ts s =
      ap (λ xs. record s { list_scheduled_unreliable_fragment = xs }) (append-nil _)

  pub with_fragments_cons :
      (reliability : ReliabilityType) (total : ℕ) (ts : List Target) (fragment : ℕ × Payload)
      (fragments : List (ℕ × Payload)) (s : Scheduler T)
      → with_fragments reliability total ts fragments
          (with_fragments reliability total ts (fragment ∷ []) s)
        ≡ with_fragments reliability total ts (fragment ∷ fragments) s
  with_fragments_cons ReliabilityType.reliable total ts fragment fragments s =
      ap (λ xs. record s { list_scheduled_reliable_fragment = xs }) (search append-snoc)
  with_fragments_cons ReliabilityType.unreliable total ts fragment fragments s =
      ap (λ xs. record s { list_scheduled_unreliable_fragment = xs }) (search append-snoc)

  pub with_fragments_no_target :
      (reliability : ReliabilityType) (total : ℕ) (fragment : ℕ × Payload) (s : Scheduler T)
      → with_fragments reliability total [] (fragment ∷ []) s ≡ s
  with_fragments_no_target ReliabilityType.reliable total fragment s =
      ap (λ xs. record s { list_scheduled_reliable_fragment = xs }) (append-nil _)
  with_fragments_no_target ReliabilityType.unreliable total fragment s =
      ap (λ xs. record s { list_scheduled_unreliable_fragment = xs }) (append-nil _)

  pub with_fragments_target :
      (reliability : ReliabilityType) (total : ℕ) (t : Target) (ts : List Target)
      (fragment : ℕ × Payload) (s : Scheduler T)
      → with_fragments reliability total ts
          (fragment ∷ [])
          (with_fragments reliability total (t ∷ []) (fragment ∷ []) s)
        ≡ with_fragments reliability total (t ∷ ts) (fragment ∷ []) s
  with_fragments_target ReliabilityType.reliable total t ts fragment s =
      ap (λ xs. record s { list_scheduled_reliable_fragment = xs }) (search append_assoc)
  with_fragments_target ReliabilityType.unreliable total t ts fragment s =
      ap (λ xs. record s { list_scheduled_unreliable_fragment = xs }) (search append_assoc)

  pub with_data_transfers_no_target :
      (reliability : ReliabilityType) (payload : Payload) (s : Scheduler T)
      → with_data_transfers reliability [] payload s ≡ s
  with_data_transfers_no_target ReliabilityType.reliable payload s =
      ap (λ xs. record s { list_scheduled_reliable_data_transfer = xs }) (append-nil _)
  with_data_transfers_no_target ReliabilityType.unreliable payload s =
      ap (λ xs. record s { list_scheduled_unreliable_data_transfer = xs }) (append-nil _)

  pub with_data_transfers_target :
      (reliability : ReliabilityType) (t : Target) (ts : List Target) (payload : Payload)
      (s : Scheduler T)
      → with_data_transfers reliability ts payload
          (with_data_transfers reliability (t ∷ []) payload s)
        ≡ with_data_transfers reliability (t ∷ ts) payload s
  with_data_transfers_target ReliabilityType.reliable t ts payload s =
      ap (λ xs. record s { list_scheduled_reliable_data_transfer = xs }) (search append_assoc)
  with_data_transfers_target ReliabilityType.unreliable t ts payload s =
      ap (λ xs. record s { list_scheduled_unreliable_data_transfer = xs }) (search append_assoc)

  pub with_heartbeats_no_target :
      (reliability : ReliabilityType) (s : Scheduler T) → with_heartbeats reliability [] s ≡ s
  with_heartbeats_no_target ReliabilityType.reliable s =
      ap (λ xs. record s { list_scheduled_reliable_heartbeat = xs }) (append-nil _)
  with_heartbeats_no_target ReliabilityType.unreliable s =
      ap (λ xs. record s { list_scheduled_unreliable_heartbeat = xs }) (append-nil _)

  pub with_heartbeats_target :
      (reliability : ReliabilityType) (t : Target) (ts : List Target) (s : Scheduler T)
      → with_heartbeats reliability ts (with_heartbeats reliability (t ∷ []) s)
        ≡ with_heartbeats reliability (t ∷ ts) s
  with_heartbeats_target ReliabilityType.reliable t ts s =
      ap (λ xs. record s { list_scheduled_reliable_heartbeat = xs }) (search append_assoc)
  with_heartbeats_target ReliabilityType.unreliable t ts s =
      ap (λ xs. record s { list_scheduled_unreliable_heartbeat = xs }) (search append_assoc)
