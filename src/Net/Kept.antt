-- ===== src/Net/Kept.antt =====
-- What the loops of antarc/src/lib.rs keep: a predicate on the service that its `sent_` methods
-- and the places behind `scheduler_mut` and `reliability_handler_mut` keep.
use antarc.Packets.Raw.{slice_to}
use antarc.Base.Errors.{ProtocolError, SocketAddr}
use antarc.Packets.Delivery.{Duration, ToSend}
use antarc.Packets.Packet.{RawPacket, as_raw, Packet}
use antarc.Protocol.{Protocol}
use antarc.Packets.Scheduled.{Scheduled}
use antarc.Packets.Encode.{Encoder}
use antarc.Base.Words.{Build}
use antarc.Net.{
  receive, match_received, record_failure, now, send_one, send_drained, send_all, deliver, resend,
  AntarcNet, send, Host,
}
use antarc.Shared.{ℕ, [], ◌∷◌, subst, List, sym, ap, ◌≡◌, Option, none, some}
use antarc.Base.Results.{
  left_panicked, left_done, left_failed, Leaves, Reply, done, failed, panicked, Result,
  ok-injective, ok, >>=-eq-ok, unwrap,
}

module _ {S K : Type 0} (h : Host K) (b : Build) where
  -- Sending leaves the protocol alone.
  pub send-antarc :
      {M : Type 0} ⦃e : Encoder M⦄ (n n' : AntarcNet S K) (packet : Packet ToSend M)
      → send h b n packet ≡ ok n'
      → n'.antarc ≡ n.antarc
  unfolding send
  send-antarc n n' packet returns =
      let (raw, encoded, rest) = >>=-eq-ok (as_raw b packet) _ returns in
      let (socket, sent, answer) =
        >>=-eq-ok (unwrap (h.send_to n.socket raw.bytes raw.address)) _ rest in
      let same : record n { socket = socket } ≡ n' = ok-injective answer in
      ap (λ (m : AntarcNet S K). m.antarc) (sym same)

module _ {S K : Type 0} (h : Host K) (b : Build) (P : S → Type 0) {M : Type 0} ⦃e : Encoder M⦄
    (sent : Protocol S → Packet ToSend M → Duration → Result (Protocol S))
    (sent_kept : (p p' : Protocol S) (packet : Packet ToSend M) (time : Duration)
      → sent p packet time ≡ ok p'
      → P p.service
      → P p'.service) where
  deliver_kept :
      (n n' : AntarcNet S K) (packet : Packet ToSend M)
      → deliver h b sent n packet ≡ ok n'
      → P n.antarc.service
      → P n'.antarc.service
  unfolding deliver now
  deliver_kept n n' packet returns p =
      let (n₁, was_sent, rest) = >>=-eq-ok (send h b n packet) _ returns in
      let time = (now h n₁).1 in
      let (antarc, was_told, answer) = >>=-eq-ok (sent n₁.antarc packet time) _ rest in
      let same : antarc ≡ n'.antarc = ap (λ (m : AntarcNet S K). m.antarc) (ok-injective answer) in
      let before : P n₁.antarc.service =
        subst (λ (a : Protocol S). P a.service) (sym (send-antarc h b n n₁ packet was_sent)) p in
      subst (λ (a : Protocol S). P a.service) same
        (sent_kept n₁.antarc antarc packet time was_told before)

  module _ {R : Type 0}
      (create : Protocol S → Scheduled R M → Duration → Result (Packet ToSend M)) where
    send_all_kept :
        (n n' : AntarcNet S K) (list : List (Scheduled R M))
        → send_all h b sent create n list ≡ ok n'
        → P n.antarc.service
        → P n'.antarc.service
    unfolding send_all send_one now
    send_all_kept n n' [] returns p =
        subst (λ (m : AntarcNet S K). P m.antarc.service) (ok-injective returns) p
    send_all_kept n n' (scheduled ∷ list) returns p =
        let (n₁, one, rest) = >>=-eq-ok (send_one h b sent create n scheduled) _ returns in
        let (packet, created, delivered) =
          >>=-eq-ok (create n.antarc scheduled (now h n).1) _ one in
        send_all_kept n₁ n' list rest (deliver_kept (now h n).0 n₁ packet delivered p)

    -- A loop over what was drained keeps the predicate, if draining does.
    pub send_drained_kept :
        (drain : Protocol S → Protocol S × List (Scheduled R M)) (n n' : AntarcNet S K)
        → P (drain n.antarc).0.service
        → send_drained h b sent drain create n ≡ ok n'
        → P n'.antarc.service
    unfolding send_drained
    send_drained_kept drain n n' p returns =
        send_all_kept (record n { antarc = (drain n.antarc).0 }) n' (drain n.antarc).1 returns p

  -- A packet that is sent again keeps the predicate, if taking it from the list does.
  pub resend_kept :
      (retry : Protocol S → Duration → Result (Protocol S × Option (Packet ToSend M)))
      (n n' : AntarcNet S K)
      → ((time : Duration) (p : Protocol S) (packet : Option (Packet ToSend M))
          → retry n.antarc time ≡ ok (p, packet)
          → P p.service)
      → resend h b sent retry n ≡ ok n'
      → P n'.antarc.service
  unfolding resend now
  resend_kept retry n n' kept returns =
      let (answer, found, rest) = >>=-eq-ok (retry n.antarc (now h n).1) _ returns in
      by_cases answer.0 answer.1 (kept (now h n).1 answer.0 answer.1 found) rest
    where
      by_cases :
          (antarc : Protocol S) (packet : Option (Packet ToSend M))
          → P antarc.service
          → elim packet [
            | none ↦ ok (record (now h n).0 { antarc = antarc })
            | some reliable_packet ↦
                deliver h b sent (record (now h n).0 { antarc = antarc }) reliable_packet
          ]
            ≡ ok n'
          → P n'.antarc.service
      by_cases antarc none p r =
          subst (λ (m : AntarcNet S K). P m.antarc.service) (ok-injective r) p
      by_cases antarc (some packet) p r =
          deliver_kept (record (now h n).0 { antarc = antarc }) n' packet r p

module _ {S K : Type 0} (h : Host K) (P : S → Type 0)
    (on_received : Protocol S → RawPacket → Duration → Reply (Protocol S) (Unit {0}))
    (report : S → ProtocolError → S)
    (received_kept : (p : Protocol S) (raw : RawPacket) (time : Duration)
      → P p.service
      → Leaves (λ (q : Protocol S). P q.service) (on_received p raw time))
    (report_kept : (s : S) (problem : ProtocolError) → P s → P (report s problem)) where
  record_failure_kept :
      (n n' : AntarcNet S K) (reply : Reply (Protocol S) (Unit {0}))
      → Leaves (λ (q : Protocol S). P q.service) reply
      → record_failure report n reply ≡ ok n'
      → P n'.antarc.service
  unfolding record_failure
  record_failure_kept n n' panicked left_panicked returns = cc
  record_failure_kept n n' (done antarc answer) (left_done p) returns =
      subst (λ (m : AntarcNet S K). P m.antarc.service) (ok-injective returns) p
  record_failure_kept n n' (failed antarc problem) (left_failed p) returns =
      subst (λ (m : AntarcNet S K). P m.antarc.service) (ok-injective returns)
        (report_kept antarc.service problem p)

  match_received_kept :
      (n n' : AntarcNet S K) (answer : K × (List ℕ × Option (ℕ × SocketAddr)))
      → P n.antarc.service
      → match_received h on_received report n answer ≡ ok n'
      → P n'.antarc.service
  unfolding match_received now
  match_received_kept n n' (socket, (buffer, none)) p returns = cc
  match_received_kept n n' (socket, (buffer, some (bytes_len, from_address))) p returns =
      let (bytes, sliced, rest) = >>=-eq-ok (unwrap (slice_to bytes_len buffer)) _ returns in
      record_failure_kept (now h (record n { socket = socket; recv_buffer = buffer })).0 n' _
        (received_kept n.antarc _ _ p) rest

  -- A datagram keeps the predicate, if `on_received` and the report of its error do.
  pub receive_kept :
      (n n' : AntarcNet S K)
      → P n.antarc.service
      → receive h on_received report n ≡ ok n'
      → P n'.antarc.service
  unfolding receive
  receive_kept n n' p returns =
      match_received_kept n n' (h.recv_from n.socket n.recv_buffer) p returns
