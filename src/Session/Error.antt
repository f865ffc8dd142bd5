-- ===== src/Session/Error.antt =====
-- src/session/mod.rs: what a session reports, and why it ends.
use bgpd_rs.Base.{ℕ, List}
use bgpd_rs.Bgp.{IpAddr, Update}

pub data SessionUpdate : Type 0 where
  learned : IpAddr → Update → SessionUpdate
  ended : List IpAddr → SessionUpdate

-- The text of an error, by the parts that are formatted into it; an `io::Error` is a number.
pub data Reason : Type 0 where
  invalid_next_hop : Reason
  io_error : ℕ → Reason
  stream_closed : IpAddr → Reason
  stream_failed : IpAddr → ℕ → Reason

pub data SessionError : Type 0 where
  deconfigured : SessionError
  open_asn_mismatch : ℕ → ℕ → SessionError
  finite_state_machine : ℕ → SessionError
  hold_time_expired : ℕ → SessionError
  transport_error : Reason → SessionError
  other : Reason → SessionError

-- `impl From<io::Error> for SessionError`
pub from_io : ℕ → SessionError
from_io e = transport_error (io_error e)
