-- ===== src/Peers/Poll.antt =====
-- `Peer::<Connected>::poll` of antarc-protocol/src/peers.rs: which group of fragments it drops.
use antarc.Shared.{
  subst, ℕ, ◌+◌, ◌<◌, ◌≤◌, ◌≡◌, ◌≢◌, refl, List, [], ◌∷◌, none, some, All, arith, inl, inr,
  Option-cases, dec_lt, lt→ltb, le→ltb,
}
use antarc.Shared.HashMap.{HashMap, get, values, get_of_mem, All-remove}
use antarc.Base.Results.{Result, ok}
use antarc.Packets.Delivery.{Duration, Received, from_secs}
use antarc.Packets.Message.{Fragment, Sequence}
use antarc.Packets.Packet.{Packet}
use antarc.Peers.{drop_group, Peer, Connected, last, dropped, poll}
use antarc.Peers.Groups.{IsGroup, GroupsFit, without}
use mathlib.Core.List.{Memᴰ}

abbrev Groups : Type 0
Groups = HashMap (List (Packet Received Fragment))

-- The newest fragment of a group came less than a second ago.
abbrev pub IsFresh : Duration → List (Packet Received Fragment) → Type 0
IsFresh now group =
    (fragment : Packet Received Fragment) × (last group ≡ some fragment)
    × (now < fragment.delivery.meta.time + from_secs 1)

-- The newest fragment came a second ago or earlier.
abbrev pub IsOld : Duration → List (Packet Received Fragment) → Type 0
IsOld now group =
    (fragment : Packet Received Fragment) × (last group ≡ some fragment)
    × (fragment.delivery.meta.time + from_secs 1 ≤ now)

abbrev FreshKey : Duration → Groups → Sequence → Type 0
FreshKey now m key =
    (group : List (Packet Received Fragment)) × Memᴰ (key, group) m × IsFresh now group

FreshKeys-tail :
    (now : Duration) (entry : ℕ × List (Packet Received Fragment)) (m : Groups) (keys : List ℕ)
    → All (FreshKey now m) keys
    → All (FreshKey now (entry ∷ m)) keys
FreshKeys-tail now entry m [] h = tt
FreshKeys-tail now entry m (key ∷ keys) h =
    ((h.0.0, Memᴰ.tail h.0.1, h.0.2), FreshKeys-tail now entry m keys h.1)

last-keyed :
    (n : ℕ) (group : List (Packet Received Fragment))
    → group ≢ []
    → All (λ (fragment : Packet Received Fragment). fragment.sequence ≡ n) group
    → (fragment : Packet Received Fragment) × (last group ≡ some fragment) × (fragment.sequence ≡ n)
unfolding last
last-keyed n [] started h = absurd (started refl)
last-keyed n (x ∷ []) started h = (x, refl, h.0)
last-keyed n (x ∷ y ∷ r) started h =
    let (fragment, found, e) = last-keyed n (y ∷ r) (λ e. cc) h.1 in (fragment, ground arith, e)

-- What the `filter_map` finds.
abbrev Found : Duration → Groups → Type 0
Found now m =
    (keys : List Sequence) × (dropped now (values m) ≡ ok keys)
    × All (FreshKey now m) keys
    × (keys ≡ [] → All (λ (entry : ℕ × List (Packet Received Fragment)). IsOld now entry.1) m)

dropped-Found : (now : Duration) (m : Groups) → All IsGroup m → Found now m
unfolding dropped
dropped-Found now [] h = ([], refl, tt, λ e. tt)
dropped-Found now ((key, group) ∷ m) h =
    let (fragment, newest, e) = last-keyed key group h.0.started h.0.keyed in
    let (keys, found, fresh, old) = dropped-Found now m h.1 in
    let tail : All (FreshKey now ((key, group) ∷ m)) keys =
      FreshKeys-tail now (key, group) m keys fresh in
    elim (dec_lt now (fragment.delivery.meta.time + from_secs 1)) [
      | yes early ↦ (
        key ∷ keys,
        rw (newest, found, lt→ltb now _ early, e),
        ((group, Memᴰ.head refl, (fragment, newest, early)), tail),
        λ e. cc,
      )
      | no late ↦ (
        keys,
        rw (newest, found, le→ltb now (fragment.delivery.meta.time + from_secs 1) (omega arith)),
        tail,
        λ e. ((fragment, newest, omega arith), old e),
      )
    ]

All-last : (P : ℕ → Type 0) (keys : List ℕ) (key : ℕ) → All P keys → last keys ≡ some key → P key
unfolding last
All-last P [] key h e = cc
All-last P (k ∷ []) key h e = let same : k ≡ key = cc in subst P same h.0
All-last P (k ∷ l ∷ keys) key h e = All-last P (l ∷ keys) key h.1 (ground arith)

last-eq-none : (keys : List ℕ) → last keys ≡ none → keys ≡ []
unfolding last
last-eq-none [] e = refl
last-eq-none (key ∷ keys) e = ground arith

drop_group-none :
    (peer : Peer Connected) (keys : List Sequence)
    → last keys ≡ none
    → drop_group peer keys ≡ ok peer
unfolding drop_group
drop_group-none peer keys e = rw (e, drop_group)

drop_group-some :
    (peer : Peer Connected) (keys : List Sequence) (key : Sequence)
    (group : List (Packet Received Fragment))
    → last keys ≡ some key
    → get key peer.connection.reassembler ≡ some group
    → drop_group peer keys ≡ ok (without peer key)
unfolding drop_group
drop_group-some peer keys key group e known = rw (e, drop_group, known)

-- What `poll` answers: the peer as it is, if every group is old, or without one fresh group.
pub data Polled (now : Duration) (peer : Peer Connected) (outcome : Result (Peer Connected))
    : Type 0 where
  kept :
      outcome ≡ ok peer
      → All
          (λ (entry : ℕ × List (Packet Received Fragment)). IsOld now entry.1)
          peer.connection.reassembler
      → Polled now peer outcome
  removed :
      (key : ℕ) (group : List (Packet Received Fragment))
      → outcome ≡ ok (without peer key)
      → Memᴰ (key, group) peer.connection.reassembler
      → IsFresh now group
      → Polled now peer outcome

-- On groups that fit, `poll` does not panic. It drops a group only if that group is fresh, no
-- more than one at a call, and it drops none only when every group is old.
pub poll-Polled :
    (peer : Peer Connected) (now : Duration) → GroupsFit peer → Polled now peer (poll peer now)
unfolding poll
poll-Polled peer now h =
    let m : Groups = peer.connection.reassembler in
    let (keys, found, fresh, old) = dropped-Found now m h in
    elim (Option-cases (last keys)) [
      | inl e ↦ kept (rw found (drop_group-none peer keys e)) (old (last-eq-none keys e))
      | inr (key, e) ↦
          let (group, entry, newest) = All-last (FreshKey now m) keys key fresh e in
          let (w, known) = get_of_mem key group m entry in
          removed key group (rw found (drop_group-some peer keys key w e known)) entry newest
    ]

-- `poll` keeps the groups fit.
pub poll-GroupsFit :
    (peer : Peer Connected) (now : Duration)
    → GroupsFit peer
    → (peer' : Peer Connected) × (poll peer now ≡ ok peer') × GroupsFit peer'
poll-GroupsFit peer now h = after (poll-Polled peer now h)
  where
    after :
        Polled now peer (poll peer now)
        → (peer' : Peer Connected) × (poll peer now ≡ ok peer') × GroupsFit peer'
    after (kept e old) = (peer, e, h)
    after (removed key group e entry newest) =
        (without peer key, e, All-remove IsGroup key peer.connection.reassembler h)
