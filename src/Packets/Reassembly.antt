-- ===== src/Packets/Reassembly.antt =====
-- `From<Vec<Packet<Received, Fragment>>> for Packet<Received, DataTransfer>` of message.rs.
use antarc.Shared.{
  ◌≡◌, refl, List, [], ◌∷◌, ◌++◌, foldl, Option, none, some, concat, map, sym, ◌∙◌, append_assoc,
  append-nil,
}
use antarc.Base.Results.{Result, ok, ◌>>=◌, unwrap}
use antarc.Packets.PacketType.{data_transfer_type}
use antarc.Packets.Delivery.{Received}
use antarc.Packets.Message.{DataTransfer, Fragment, Payload}
use antarc.Packets.Packet.{Packet}

module _ {A : Type 0} where
  -- `Vec::pop`: the vector without its last item, and that item.
  unfoldable pub pop : List A → Option (List A × A)
  pop [] = none
  pop (x ∷ xs) = elim (pop xs) [ none ↦ some ([], x) | some (front, last) ↦ some (x ∷ front, last) ]

  pub pop-append : (xs : List A) (x : A) → pop (xs ++ (x ∷ [])) ≡ some (xs, x)
  unfolding pop
  pop-append [] x = refl
  pop-append (y ∷ xs) x = rw (pop-append xs x)

-- The fold over the payloads.
unfoldable pub append_payloads : Payload → List (Packet Received Fragment) → Payload
append_payloads = foldl (λ payload fragment. payload ++ fragment.message.payload)

unfoldable pub from_fragments :
    List (Packet Received Fragment) → Result (Packet Received DataTransfer)
unfolding pop append_payloads
from_fragments fragments = do
  (rest, last_fragment) ← unwrap (pop fragments)
  ok (record {
    delivery = record { meta = last_fragment.delivery.meta };
    sequence = last_fragment.sequence;
    ack = last_fragment.ack;
    message = record {
      meta = record { packet_type = data_transfer_type };
      connection_id = last_fragment.message.connection_id;
      payload = append_payloads [] rest;
    };
  })

abbrev pub payloads : List (Packet Received Fragment) → List Payload
payloads = map (λ fragment. fragment.message.payload)

append_payloads-concat :
    (payload : Payload) (fragments : List (Packet Received Fragment))
    → append_payloads payload fragments ≡ payload ++ concat (payloads fragments)
unfolding append_payloads
append_payloads-concat payload [] = sym (append-nil payload)
append_payloads-concat payload (fragment ∷ fragments) =
    append_payloads-concat (payload ++ fragment.message.payload) fragments
    ∙ append_assoc payload fragment.message.payload (concat (payloads fragments))

-- Of the fragments that become a data transfer the last one gives the delivery, the sequence,
-- the ack and the connection id, and the others, in their order, the payload: the payload of
-- the last fragment is lost.
pub from_fragments-append :
    (front : List (Packet Received Fragment)) (last : Packet Received Fragment)
    → from_fragments (front ++ (last ∷ []))
      ≡ ok (record {
        delivery = last.delivery;
        sequence = last.sequence;
        ack = last.ack;
        message = record {
          meta = record { packet_type = data_transfer_type };
          connection_id = last.message.connection_id;
          payload = concat (payloads front);
        };
      })
unfolding from_fragments
from_fragments-append front last = rw (pop-append front last, append_payloads-concat [] front)
