-- ===== src/Packets/Delivery.antt =====
-- antarc-protocol/src/packets/delivery.rs. A `Duration` is a number of nanoseconds.
use antarc.Shared.{ℕ, ◌*◌, ◌+◌, ◌^◌, ltb, if◌then◌else◌}
use antarc.Base.Results.{Result, ok, panic}
use antarc.Base.Errors.{SocketAddr}

abbrev pub Duration : Type 0
Duration = ℕ

-- `Duration::from_secs`
abbrev pub from_secs : ℕ → Duration
from_secs s = s * 1_000_000_000

-- A `Duration` has seconds in 64 bits, and fewer nanoseconds than a second has.
abbrev pub duration_mod : ℕ
duration_mod = 2 ^ 64 * 1_000_000_000

-- `Duration + Duration`: an overflow panics in every build.
unfoldable pub duration_sum : Duration → Duration → Result Duration
duration_sum x y = if ltb (x + y) duration_mod then ok (x + y) else panic

abbrev pub PacketId : Type 0
PacketId = ℕ

pub record MetaDelivery : Type 0 where
  pub time : Duration
  pub address : SocketAddr

pub record ToSend : Type 0 where
  pub id : PacketId
  pub meta : MetaDelivery

pub record Sent : Type 0 where
  pub id : PacketId
  pub ttl : Duration
  pub meta : MetaDelivery

pub record Received : Type 0 where
  pub meta : MetaDelivery

pub record Acked : Type 0 where
  pub id : PacketId
  pub meta : MetaDelivery
