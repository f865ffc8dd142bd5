-- ===== src/Handler.antt =====
-- src/handler.rs: the loop of the daemon, one turn at a time: an update of the sessions, then the
-- change of the table.
pub mod Table
pub mod Start
pub mod Daemon
pub mod Relay
pub mod Reload
use bgpd_rs.Base.{ℕ, List, [], ◌∷◌, Option, none, some, Outcome, ok, err, panic, ◌>>=◌}
use bgpd_rs.Bgp.{IpAddr, OpenParameter, Capabilities}
use bgpd_rs.Rib.{Rib, Step, update_from_peer, remove_from_peer}
use bgpd_rs.Rib.Attributes.{AttributeApi}
use bgpd_rs.Session.Error.{SessionUpdate, learned, ended, SessionError}
use bgpd_rs.Session.Manager.{Manager, Wake, get_update}
use bgpd_rs.Session.Poller.{NetworkApi}
use bgpd_rs.Session.Run.{Event}

pub record State : Type 0 where
  pub sessions : Manager
  pub rib : Rib

-- `get_update` failed, which ends the loop without an error, or the table refused an update.
pub data Stop : Type 0 where
  finished : ℕ → Stop
  failed : SessionError → Stop

remove_peers : List IpAddr → Rib → Rib
remove_peers [] r = r
remove_peers (ip ∷ ips) r = remove_peers ips (remove_from_peer r ip)

module _ (lib : AttributeApi) where
  unfoldable pub apply_update : Rib → (ℕ → ℕ) → Option SessionUpdate → Step
  unfolding remove_peers
  apply_update r clock (some (learned ip update)) = update_from_peer lib r ip clock update
  apply_update r clock (some (ended peers)) = ok (remove_peers peers r)
  apply_update r clock none = ok r

  -- The table that `?` leaves behind is lost with the loop.
  applied : Manager → Step → Outcome Stop State
  applied m (ok r) = ok (record { sessions = m; rib = r })
  applied m (err (e, r)) = err (failed e)
  applied m panic = panic

  got : Rib → (ℕ → ℕ) → Outcome ℕ (Option SessionUpdate × Manager) → Outcome Stop State
  unfolding applied
  got r clock (ok (update, m)) = applied m (apply_update r clock update)
  got r clock (err e) = err (finished e)
  got r clock panic = panic

  module _ (net : NetworkApi) (from_parameters : List OpenParameter → Capabilities) where
    unfoldable pub turn :
        State
        → (events : IpAddr → Event) → (now : ℕ) → Wake net from_parameters events now
        → (ℕ → ℕ)
        → Outcome Stop State
    unfolding got
    turn s events now wake clock =
        got s.rib clock (get_update net from_parameters events now s.sessions s.rib wake)
