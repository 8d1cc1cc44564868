-- ===== src/Tests/PeerRuns.antt =====
-- The peers of antarc-protocol/src/peers.rs at concrete inputs.
use antarc.Peers.Transfer.{Transferred, reassemble_all, reassemble_all_lem}
use antarc.Shared.{◌++◌, ◌≡◌, refl, some, [], ◌∷◌}
use antarc.Shared.HashMap.{get}
use antarc.Base.Results.{ok}
use antarc.Peers.{poll}
use antarc.Peers.Reassemble.{reassemble}
use antarc.Peers.Groups.{GroupsFit, Reassembled, without, reassemble_complete, reassemble-GroupsFit}
use antarc.Peers.Poll.{Polled, poll-Polled}
use antarc.Tests.Data.{peer_with, received, part, peer, two_parts}

pub peer-GroupsFit : GroupsFit peer
peer-GroupsFit = (record { started = λ e. cc; keyed = (refl, (refl, tt)) }, tt)

reassemble_complete_example :
    reassemble peer (received 4 (part 2 (9 ∷ []))) ≡ ok (without peer 4, some (1 ∷ 2 ∷ 3 ∷ []))
unfolding get
reassemble_complete_example =
    reassemble_complete peer (received 4 (part 2 (9 ∷ []))) two_parts peer-GroupsFit refl refl

reassemble-GroupsFit_example : Reassembled peer (reassemble peer (received 4 (part 2 (9 ∷ []))))
reassemble-GroupsFit_example =
    reassemble-GroupsFit peer (received 4 (part 2 (9 ∷ []))) peer-GroupsFit

poll-Polled_example : Polled 500 peer (poll peer 500)
poll-Polled_example = poll-Polled peer 500 peer-GroupsFit

reassemble_all_lem_example : Transferred 4 two_parts (
    reassemble_all (peer_with []) (
      received 4 (part 0 (1 ∷ 2 ∷ []))
      ∷ ((received 4 (part 1 (3 ∷ [])) ∷ []) ++ (received 4 (part 2 (9 ∷ [])) ∷ []))))
unfolding get
reassemble_all_lem_example =
    reassemble_all_lem (peer_with []) (received 4 (part 0 (1 ∷ 2 ∷ [])))
      (received 4 (part 1 (3 ∷ [])) ∷ []) (received 4 (part 2 (9 ∷ []))) tt refl
      ((refl, refl), ((refl, refl), tt)) refl
