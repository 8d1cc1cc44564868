-- ===== src/Packets/Sound.antt =====
-- What a datagram that `inner_decode` (raw.rs) accepts must have been.
use antarc.Shared.{
  ◌≢◌, false, take-append, drop-append, dec_lt, lt→ltb, subst, ℕ, ◌+◌, ◌-◌, ◌<◌, ◌≤◌, ◌≡◌, sym, ap,
  ◌∙◌, List, [], ◌∷◌, ◌++◌, arith, length, length-append, All, take, drop, take-append-drop,
  length-drop, All-take, All-drop, ◌==◌, if◌then◌else◌, le→ltb,
}
use antarc.Base.Errors.{SocketAddr, invalid_crc32}
use antarc.Base.Results.{ok, err, panic, ◌>>=◌}
use antarc.Base.Words.{
  Build, IsByte, nonzero, u32-from_be_bytes, u16-from_be_bytes, from_be_bytes, u32_to_be_bytes,
}
use antarc.Packets.Delivery.{Duration, Received}
use antarc.Packets.Message.{Fragment, DataTransfer}
use antarc.Packets.Encode.{data_transfer_encoder, fragment_encoder, heartbeat_encoder}
use antarc.Packets.Packet.{Packet, RawPacket, protocol_id_bytes}
use antarc.Packets.Decode.{DecodedCommon}
use antarc.Packets.Raw.{common_decode, inner_decode, decode_header}
use antarc.Packets.Framing.{body, framed, slice_from-append, slice_to-append}

-- A list of at least four bytes is a front and four bytes.
pub data Split : List ℕ → Type 0 where
  split :
      (front : List ℕ) (p q r s : ℕ) {bytes : List ℕ}
      → bytes ≡ front ++ (p ∷ q ∷ r ∷ s ∷ [])
      → Split bytes

abbrev tail-four :
    (bytes tail : List ℕ) → length tail ≡ 4 → (front : List ℕ) → bytes ≡ front ++ tail → Split bytes
tail-four bytes (p ∷ q ∷ r ∷ s ∷ []) e front h = split front p q r s h
tail-four bytes [] e front h = absurd (omega arith)
tail-four bytes (p ∷ []) e front h = absurd (omega arith)
tail-four bytes (p ∷ q ∷ []) e front h = absurd (omega arith)
tail-four bytes (p ∷ q ∷ r ∷ []) e front h = absurd (omega arith)
tail-four bytes (p ∷ q ∷ r ∷ s ∷ t ∷ u) e front h = absurd (omega arith)

split_bytes : (bytes : List ℕ) → 4 ≤ length bytes → Split bytes
split_bytes bytes h =
    tail-four bytes (drop (length bytes - 4) bytes)
      (omega (arith, length-drop (length bytes - 4) bytes)) (take (length bytes - 4) bytes)
      (sym (take-append-drop (length bytes - 4) bytes))

-- A datagram of at least four bytes is decoded behind the test of its checksum.
pub inner_decode-split :
    (b : Build) (address : SocketAddr) (time : Duration) (front : List ℕ) (p q r s : ℕ)
    → inner_decode b (record { address = address; bytes = front ++ (p ∷ q ∷ r ∷ s ∷ []) }) time ≡ (
        if b.crc32 (protocol_id_bytes ++ front) == from_be_bytes (p ∷ q ∷ r ∷ s ∷ [])
        then decode_header b address time (protocol_id_bytes ++ front)
        else nonzero (b.crc32 (protocol_id_bytes ++ front)) >>= λ expected.
            err (invalid_crc32 (from_be_bytes (p ∷ q ∷ r ∷ s ∷ [])) expected))
unfolding inner_decode
inner_decode-split b address time front p q r s =
    let four : List ℕ = p ∷ q ∷ r ∷ s ∷ [] in
    let long : length (front ++ four) ≡ length front + 4 = length-append front four in
    let cut : length (front ++ four) - 4 ≡ length front = omega arith in
    rw (
      le→ltb (length (front ++ four)) 4 (omega arith),
      cut,
      slice_from-append front,
      slice_to-append front,
    )

accepted_checksum :
    (b : Build) (raw : RawPacket) (time : Duration) (decoded : DecodedCommon) (front : List ℕ)
    (p q r s : ℕ)
    → All IsByte (p ∷ q ∷ r ∷ s ∷ [])
    → raw.bytes ≡ front ++ (p ∷ q ∷ r ∷ s ∷ [])
    → inner_decode b raw time ≡ ok decoded
    → (b.crc32 (protocol_id_bytes ++ front) ≡ from_be_bytes (p ∷ q ∷ r ∷ s ∷ []))
      × (decode_header b raw.address time (protocol_id_bytes ++ front) ≡ ok decoded)
unfolding nonzero
accepted_checksum b raw time decoded front p q r s bytes h e =
    let moved : inner_decode b
          (record { address = raw.address; bytes = front ++ (p ∷ q ∷ r ∷ s ∷ []) }) time
        ≡ ok decoded =
      subst (λ x. inner_decode b (record { address = raw.address; bytes = x }) time ≡ ok decoded) h
        e in
    ground (arith, moved, inner_decode-split b raw.address time front p q r s)

sound_of_split :
    (b : Build) (raw : RawPacket) (time : Duration) (decoded : DecodedCommon)
    → All IsByte raw.bytes
    → inner_decode b raw time ≡ ok decoded
    → Split raw.bytes
    → (front : List ℕ) × (raw.bytes ≡ (framed b raw.address front).bytes)
      × (decode_header b raw.address time (protocol_id_bytes ++ front) ≡ ok decoded)
sound_of_split b raw time decoded bytes e (split front p q r s h) =
    let four : List ℕ = p ∷ q ∷ r ∷ s ∷ [] in
    let range : All IsByte four =
      subst (All IsByte) (drop-append front four)
        (All-drop IsByte (length front) (front ++ four) (subst (All IsByte) h bytes)) in
    let (same, decodes) = accepted_checksum b raw time decoded front p q r s range h e in
    (
      front,
      h
          ∙ ap (λ x. front ++ x)
              (sym (
                ap u32_to_be_bytes same
                ∙ u32-from_be_bytes p q r s range.0 range.1.0 range.1.1.0 range.1.1.1.0)),
      decodes,
    )

-- A datagram of fewer than four bytes ends the process.
pub inner_decode_short :
    (b : Build) (raw : RawPacket) (time : Duration)
    → length raw.bytes < 4
    → inner_decode b raw time ≡ panic
unfolding inner_decode
inner_decode_short b raw time h = rw (lt→ltb (length raw.bytes) 4 h)

-- A datagram of bytes that is accepted is a frame: some front, and behind it the checksum of the
-- protocol's number and that front, which are what the answer was decoded from.
pub inner_decode_sound :
    (b : Build) (raw : RawPacket) (time : Duration) (decoded : DecodedCommon)
    → All IsByte raw.bytes
    → inner_decode b raw time ≡ ok decoded
    → (front : List ℕ) × (raw.bytes ≡ (framed b raw.address front).bytes)
      × (decode_header b raw.address time (protocol_id_bytes ++ front) ≡ ok decoded)
inner_decode_sound b raw time decoded bytes e = elim (dec_lt (length raw.bytes) 4) [
  | yes short ↦ absurd (cc (inner_decode_short b raw time short))
  | no long ↦ sound_of_split b raw time decoded bytes e (split_bytes raw.bytes (omega arith))
]

decode_header-data :
    (b : Build) (address : SocketAddr) (time : Duration) (front : List ℕ)
    (packet : Packet Received DataTransfer)
    → All IsByte front
    → decode_header b address time (protocol_id_bytes ++ front)
      ≡ ok (DecodedCommon.data_transfer packet)
    → front ≡ body packet
unfolding decode_header common_decode
decode_header-data b address time (s1 ∷ s2 ∷ s3 ∷ s4 ∷ a1 ∷ a2 ∷ a3 ∷ a4 ∷ ty ∷ c1 ∷ c2 ∷ payload)
      packet bytes e =
    ground
      (arith, u32-from_be_bytes s1 s2 s3 s4, u32-from_be_bytes a1 a2 a3 a4, u16-from_be_bytes c1 c2)
decode_header-data b address time _ packet bytes e = ground arith

front_bytes :
    (b : Build) (raw : RawPacket) (front : List ℕ)
    → raw.bytes ≡ (framed b raw.address front).bytes
    → All IsByte raw.bytes
    → All IsByte front
front_bytes b raw front h bytes =
    subst (All IsByte) (take-append front _)
      (All-take IsByte (length front) _ (subst (All IsByte) h bytes))

-- A datagram that is accepted as a data transfer is, byte for byte, the encoding of the packet
-- that was decoded from it.
pub data_transfer-inner_decode :
    (b : Build) (raw : RawPacket) (time : Duration) (packet : Packet Received DataTransfer)
    → All IsByte raw.bytes
    → inner_decode b raw time ≡ ok (DecodedCommon.data_transfer packet)
    → raw.bytes ≡ (framed b raw.address (body packet)).bytes
data_transfer-inner_decode b raw time packet bytes e =
    let (front, h, decodes) = inner_decode_sound b raw time _ bytes e in
    let same : front ≡ body packet =
      decode_header-data b raw.address time front packet (front_bytes b raw front h bytes)
        decodes in
    subst (λ x. raw.bytes ≡ (framed b raw.address x).bytes) same h

decode_header-fragment :
    (b : Build) (address : SocketAddr) (time : Duration) (front : List ℕ)
    (packet : Packet Received Fragment)
    → All IsByte front
    → decode_header b address time (protocol_id_bytes ++ front) ≡ ok (DecodedCommon.fragment packet)
    → front ≡ body packet
unfolding decode_header common_decode
decode_header-fragment b address time
      (s1 ∷ s2 ∷ s3 ∷ s4 ∷ a1 ∷ a2 ∷ a3 ∷ a4 ∷ ty ∷ i ∷ n ∷ c1 ∷ c2 ∷ payload) packet bytes e =
    ground
      (arith, u32-from_be_bytes s1 s2 s3 s4, u32-from_be_bytes a1 a2 a3 a4, u16-from_be_bytes c1 c2)
decode_header-fragment b address time _ packet bytes e = ground arith

-- A datagram that is accepted as a fragment is, byte for byte, the encoding of the packet that was
-- decoded from it.
pub fragment-inner_decode :
    (b : Build) (raw : RawPacket) (time : Duration) (packet : Packet Received Fragment)
    → All IsByte raw.bytes
    → inner_decode b raw time ≡ ok (DecodedCommon.fragment packet)
    → raw.bytes ≡ (framed b raw.address (body packet)).bytes
fragment-inner_decode b raw time packet bytes e =
    let (front, h, decodes) = inner_decode_sound b raw time _ bytes e in
    let same : front ≡ body packet =
      decode_header-fragment b raw.address time front packet (front_bytes b raw front h bytes)
        decodes in
    subst (λ x. raw.bytes ≡ (framed b raw.address x).bytes) same h

decode_header-ne-panic :
    (b : Build) (address : SocketAddr) (time : Duration) (front : List ℕ)
    → b.debug_assertions ≡ false
    → 13 ≤ length front
    → decode_header b address time (protocol_id_bytes ++ front) ≢ panic
unfolding decode_header common_decode
decode_header-ne-panic b address time
      (s1 ∷ s2 ∷ s3 ∷ s4 ∷ a1 ∷ a2 ∷ a3 ∷ a4 ∷ ty ∷ i ∷ n ∷ c1 ∷ c2 ∷ payload) release h =
    ground arith
decode_header-ne-panic b address time _ release h = absurd (omega arith)

ne-panic_of_split :
    (b : Build) (raw : RawPacket) (time : Duration)
    → b.debug_assertions ≡ false
    → 17 ≤ length raw.bytes
    → Split raw.bytes
    → inner_decode b raw time ≢ panic
unfolding nonzero
ne-panic_of_split b raw time release h (split front p q r s e) =
    let four : List ℕ = p ∷ q ∷ r ∷ s ∷ [] in
    subst (λ x. inner_decode b (record { address = raw.address; bytes = x }) time ≢ panic) (sym e)
      (ground (
        arith,
        inner_decode-split b raw.address time front p q r s,
        decode_header-ne-panic b raw.address time front release
            (omega (arith, length-append front four, ap length e)),
      ))

-- Without debug assertions a datagram of 17 bytes or more, the size of an empty fragment, is
-- decoded or refused with an error, whatever its bytes are.
pub inner_decode-ne-panic :
    (b : Build) (raw : RawPacket) (time : Duration)
    → b.debug_assertions ≡ false
    → 17 ≤ length raw.bytes
    → inner_decode b raw time ≢ panic
inner_decode-ne-panic b raw time release h =
    ne-panic_of_split b raw time release h (split_bytes raw.bytes (omega arith))
