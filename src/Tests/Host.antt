-- ===== src/Tests/Host.antt =====
-- A host for the runs of the loops of antarc/src: a clock that goes on by one at each reading, the
-- datagrams that were sent, and those that will come in.
use antarc.Shared.{ℕ, ◌+◌, List, [], ◌∷◌, ◌++◌, Option, some, none, length, drop, refl}
use antarc.Base.Errors.{SocketAddr}
use antarc.Packets.Delivery.{Duration}
use antarc.Packets.Packet.{RawPacket}
use antarc.Net.{Host}
use antarc.Net.Sending.{Sends}

pub record LogHost : Type 0 where
  pub clock : Duration
  pub outgoing : List RawPacket
  pub incoming : List RawPacket

-- The answer of `recv_from` to the datagrams that wait.
abbrev pub next_datagram :
    LogHost → List ℕ → List RawPacket → LogHost × (List ℕ × Option (ℕ × SocketAddr))
next_datagram k buffer [] = (k, (buffer, none))
next_datagram k buffer (raw ∷ raws) = (
  record k { incoming = raws },
  (raw.bytes ++ drop (length raw.bytes) buffer, some (length raw.bytes, raw.address)),
)

abbrev pub log_host : Host LogHost
log_host = record {
  bind = λ k address. some k;
  elapsed = λ k. (record k { clock = k.clock + 1 }, k.clock);
  send_to = λ k bytes address.
      some
        (record k { outgoing = k.outgoing ++ (record { address = address; bytes = bytes } ∷ []) });
  recv_from = λ k buffer. next_datagram k buffer k.incoming;
}

abbrev pub log_host_sends : Sends log_host
log_host_sends = record {
  log = λ k. k.outgoing;
  log-elapsed = λ k. refl;
  send_to_logs = λ k raw. (
    record k {
      outgoing = k.outgoing ++ (record { address = raw.address; bytes = raw.bytes } ∷ []);
    },
    refl,
    refl,
  );
}
