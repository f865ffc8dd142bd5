-- ===== src/Handler/Relay.antt =====
-- src/handler.rs, src/rib and src/session: a route that one peer announces goes on to another.
use bgpd_rs.Base.{nat_Eq}
use bgpd_rs.Base.Map
use bgpd_rs.Base.Within.{Within}
use bgpd_rs.Config.{advertise_Eq}
use bgpd_rs.Rib.{Rib}
use bgpd_rs.Rib.Families
use bgpd_rs.Session.Peer.{Session}
