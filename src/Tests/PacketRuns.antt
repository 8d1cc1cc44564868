-- ===== src/Tests/PacketRuns.antt =====
-- The packets of antarc-protocol/src/packets at concrete inputs.
use antarc.Shared.{
  sym, ◌∙◌, subst, ℕ, ◌+◌, ◌≤◌, ◌≡◌, ◌≢◌, ◌++◌, refl, inl, List, [], ◌∷◌, length, All, arith,
}
use antarc.Base.Words.{IsByte}
use antarc.Base.Results.{ok, panic}
use antarc.Packets.Encode.{
  heartbeat_encoder, connection_request_encoder, connection_accepted_encoder, data_transfer_encoder,
  fragment_encoder,
}
use antarc.Packets.Packet.{RawPacket, as_raw, max_fragment_size, protocol_id_bytes}
use antarc.Packets.Decode.{DecodedCommon}
use antarc.Packets.Raw.{inner_decode, decode_header}
use antarc.Packets.Framing.{HeaderFits, framed, body, as_raw-framed}
use antarc.Packets.RoundTrip.{
  transmit, arrived, IsFragment, transmit-data_transfer, transmit-fragment,
  transmit-connection_accepted,
}
use antarc.Packets.Sound.{
  inner_decode_sound, data_transfer-inner_decode, fragment-inner_decode, inner_decode-ne-panic,
}
use antarc.Packets.Size.{as_raw-data_transfer, as_raw-fragment}
use antarc.Tests.Data.{hello-IsData, release, release-IsCrc32, to_send, hello, part, acceptance}

fits : {M : Type 0} (message : M) → HeaderFits (to_send message)
fits message = (omega arith, omega arith, omega arith)

part-IsFragment : IsFragment (part 2 (7 ∷ 8 ∷ []))
part-IsFragment = record {
  typed = refl;
  id_range = (omega arith, omega arith);
  index_range = omega arith;
  total_range = omega arith;
  payload_range = (omega arith, (omega arith, tt));
}

transmit-data_transfer_example :
    transmit release (to_send hello) 99 300
    ≡ ok (DecodedCommon.data_transfer (arrived (to_send hello) 99 300))
transmit-data_transfer_example =
    transmit-data_transfer release (to_send hello) 99 300 release-IsCrc32 (inl refl) (fits hello)
      hello-IsData

transmit-fragment_example :
    transmit release (to_send (part 2 (7 ∷ 8 ∷ []))) 99 300
    ≡ ok (DecodedCommon.fragment (arrived (to_send (part 2 (7 ∷ 8 ∷ []))) 99 300))
transmit-fragment_example =
    transmit-fragment release (to_send (part 2 (7 ∷ 8 ∷ []))) 99 300 release-IsCrc32 (inl refl)
      (fits (part 2 (7 ∷ 8 ∷ []))) part-IsFragment

transmit-connection_accepted_example :
    transmit release (to_send acceptance) 99 300
    ≡ ok (DecodedCommon.connection_accepted (arrived (to_send acceptance) 99 300))
transmit-connection_accepted_example =
    transmit-connection_accepted release (to_send acceptance) 99 300 release-IsCrc32 (inl refl)
      (fits acceptance) refl (omega arith, omega arith)

abbrev hello_raw : RawPacket
hello_raw = framed release 77 (body (to_send hello))

abbrev part_raw : RawPacket
part_raw = framed release 77 (body (to_send (part 2 (7 ∷ 8 ∷ []))))

hello_received :
    inner_decode release hello_raw 300
    ≡ ok (DecodedCommon.data_transfer (arrived (to_send hello) 77 300))
hello_received =
    let sent =
      transmit-data_transfer release (to_send hello) 77 300 release-IsCrc32 (inl refl) (fits hello)
        hello-IsData in
    rw (as_raw-framed release (to_send hello) (inl refl)) at sent

part_received :
    inner_decode release part_raw 300
    ≡ ok (DecodedCommon.fragment (arrived (to_send (part 2 (7 ∷ 8 ∷ []))) 77 300))
part_received =
    let sent =
      transmit-fragment release (to_send (part 2 (7 ∷ 8 ∷ []))) 77 300 release-IsCrc32 (inl refl)
        (fits (part 2 (7 ∷ 8 ∷ []))) part-IsFragment in
    rw (as_raw-framed release (to_send (part 2 (7 ∷ 8 ∷ []))) (inl refl)) at sent

hello_bytes : All IsByte hello_raw.bytes
hello_bytes =
    let (raw, e, size, bytes) =
      as_raw-data_transfer release (to_send hello) (inl refl) hello-IsData.payload_range in
    let same : ok raw ≡ ok hello_raw = sym e ∙ as_raw-framed release (to_send hello) (inl refl) in
    let own : raw ≡ hello_raw = cc in subst (λ (r : RawPacket). All IsByte r.bytes) own bytes

part_bytes : All IsByte part_raw.bytes
part_bytes =
    let sent = to_send (part 2 (7 ∷ 8 ∷ [])) in
    let (raw, e, size, short, bytes) =
      as_raw-fragment release sent (inl refl) part-IsFragment.payload_range (omega arith) in
    let same : ok raw ≡ ok part_raw = sym e ∙ as_raw-framed release sent (inl refl) in
    let own : raw ≡ part_raw = cc in subst (λ (r : RawPacket). All IsByte r.bytes) own bytes

inner_decode_sound_example :
    (front : List ℕ) × (hello_raw.bytes ≡ (framed release hello_raw.address front).bytes)
    × (decode_header release hello_raw.address 300 (protocol_id_bytes ++ front)
        ≡ ok (DecodedCommon.data_transfer (arrived (to_send hello) 77 300)))
inner_decode_sound_example =
    inner_decode_sound release hello_raw 300
      (DecodedCommon.data_transfer (arrived (to_send hello) 77 300)) hello_bytes hello_received

data_transfer-inner_decode_example :
    hello_raw.bytes ≡ (framed release 77 (body (arrived (to_send hello) 77 300))).bytes
data_transfer-inner_decode_example =
    data_transfer-inner_decode release hello_raw 300 (arrived (to_send hello) 77 300) hello_bytes
      hello_received

fragment-inner_decode_example :
    part_raw.bytes
    ≡ (framed release 77 (body (arrived (to_send (part 2 (7 ∷ 8 ∷ []))) 77 300))).bytes
fragment-inner_decode_example =
    fragment-inner_decode release part_raw 300 (arrived (to_send (part 2 (7 ∷ 8 ∷ []))) 77 300)
      part_bytes part_received

inner_decode-ne-panic_example : inner_decode release hello_raw 300 ≢ panic
inner_decode-ne-panic_example = inner_decode-ne-panic release hello_raw 300 refl (omega arith)

as_raw-fragment_example :
    (raw : RawPacket) × (as_raw release (to_send (part 2 (7 ∷ 8 ∷ []))) ≡ ok raw)
    × (length raw.bytes ≡ fragment_encoder.header_size + 2)
    × (length raw.bytes ≤ max_fragment_size)
    × All IsByte raw.bytes
as_raw-fragment_example =
    as_raw-fragment release (to_send (part 2 (7 ∷ 8 ∷ []))) (inl refl) part-IsFragment.payload_range
      (omega arith)
