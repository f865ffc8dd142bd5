-- ===== src/Show.antt =====
-- The texts of the types of the daemon, and the texts that are read back in a configuration
-- (src/rib/mod.rs, src/rib/families.rs, src/session, src/config/file.rs).
pub mod Reading
use bgpd_rs.Base.{
  ℕ, if◌then◌else◌, List, [], ◌∷◌, ◌++◌, Option, none, some, Outcome, ok, err, or_err, ◌>>=◌, ◌==◌,
}
use bgpd_rs.Base.Text.{Text, text, text_Eq, trim, split_whitespace, decimal}
use bgpd_rs.Bgp.{Afi, ipv4, ipv6, l2vpn, Safi, unicast, safi_flowspec}
use bgpd_rs.Config.{PeerConfig, AdvertiseSource}
use bgpd_rs.Rib.Entry.{EntrySource, ExportEntry}
use bgpd_rs.Rib.Families.{Family}
use bgpd_rs.Session.Error.{
  Reason, invalid_next_hop, io_error, stream_closed, stream_failed, SessionError, deconfigured,
  open_asn_mismatch, finite_state_machine, hold_time_expired, transport_error, other,
}
use bgpd_rs.Session.HoldTimer.{HoldTimer, get_hold_time}
use bgpd_rs.Session.Peer.{
  Session, SessionState, connect, active, idle, open_sent, open_confirm, established,
}
use bgpd_rs.Utils.Api.{TextApi}
use bgpd_rs.Utils.Display.{format_elapsed_time, format_time_as_elapsed}

unfoldable pub show_state : SessionState → Text
show_state connect = text "Connect"
show_state active = text "Active"
show_state idle = text "Idle"
show_state open_sent = text "OpenSent"
show_state open_confirm = text "OpenConfirm"
show_state established = text "Established"

unfoldable pub show_advertise_source : AdvertiseSource → Text
show_advertise_source AdvertiseSource.api = text "API"
show_advertise_source AdvertiseSource.config = text "Config"
show_advertise_source AdvertiseSource.peer = text "Peer"

unfoldable pub show_hold_timer : HoldTimer → ℕ → Text
show_hold_timer h now = format_elapsed_time (get_hold_time h now)

-- The reasons of the `Error` of `serde`, and the `io::Error` of `TryFrom`.
pub data FormatError : Type 0 where
  bad_family bad_afi_name bad_safi_name bad_source : Text → FormatError
  bad_afi_number bad_safi_number : ℕ → FormatError

afi_named : Text → Outcome FormatError Afi
afi_named t =
    if t == text "ipv4"
    then ok ipv4
    else if t == text "ipv6"
    then ok ipv6
    else if t == text "l2vpn"
    then ok l2vpn
    else err (bad_afi_name t)

safi_named : Text → Outcome FormatError Safi
safi_named t =
    if t == text "unicast"
    then ok unicast
    else if t == text "flow"
    then ok safi_flowspec
    else err (bad_safi_name t)

family_named : Text → List Text → Outcome FormatError Family
unfolding afi_named safi_named
family_named s (a ∷ b ∷ []) = do
  afi ← afi_named a
  safi ← safi_named b
  ok (record { afi = afi; safi = safi })
family_named s _ = err (bad_family s)

-- `Family::deserialize`
unfoldable pub deserialize_family : Text → Outcome FormatError Family
unfolding family_named
deserialize_family s = family_named s (split_whitespace (trim s))

module _ (api : TextApi) where
  unfoldable pub show_source : EntrySource → Text
  show_source EntrySource.api = text "API"
  show_source EntrySource.config = text "Config"
  show_source (EntrySource.peer addr) = api.show_ip addr

  unfoldable pub show_family : Family → Text
  show_family f = api.show_afi f.afi ++ b' ' ∷ api.show_safi f.safi

  unfoldable pub show_session : Session → ℕ → Text
  show_session s now =
      text "<Session "
      ++ (api.show_ip s.addr
          ++ (text " uptime="
              ++ (format_time_as_elapsed s.connect_time now
                  ++ (text " hold_time=" ++ (show_hold_timer s.hold_timer now ++ text ">")))))

  -- `impl Display for ExportEntry`
  pub show_export : ExportEntry → ℕ → Text
  unfolding show_source
  show_export e now =
      text "<ExportEntry source="
      ++ (show_source e.source
          ++ (text " age=" ++ (format_time_as_elapsed e.timestamp now ++ text ">")))

  pub show_reason : Reason → Text
  show_reason invalid_next_hop = text "Invalid Next-hop on MPReachNLRI"
  show_reason (io_error e) = api.show_io_error e
  show_reason (stream_closed addr) = text "Session ended with " ++ api.show_ip addr
  show_reason (stream_failed addr e) =
      text "Session ended with " ++ (api.show_ip addr ++ (text ": " ++ api.show_io_error e))

  -- What follows the prefix of `impl Display for SessionError`.
  error_text : SessionError → Text
  unfolding show_reason
  error_text deconfigured = text "Peer De-configured"
  error_text (open_asn_mismatch received expected) =
      text "Open ASN Mismatch (received="
      ++ (decimal received ++ (text ", expected=" ++ (decimal expected ++ text ")")))
  error_text (finite_state_machine minor) =
      text "Finite State Machine err [" ++ (decimal minor ++ text "]")
  error_text (hold_time_expired h) =
      text "Hold time expired after " ++ (decimal h ++ text " seconds")
  error_text (transport_error r) = text "Transport error [" ++ (show_reason r ++ text "]")
  error_text (other r) = show_reason r

  unfoldable pub show_error : SessionError → Text
  unfolding error_text
  show_error e = text "Session Error: " ++ error_text e

  unfoldable pub show_idle_peer : PeerConfig → Text
  show_idle_peer config = text "<IdlePeer " ++ (api.show_network config.remote_ip ++ text ">")

  -- `impl TryFrom<(u16, u8)> for Family`
  unfoldable pub family_of_numbers : ℕ × ℕ → Outcome FormatError Family
  family_of_numbers (a, b) = do
    afi ← or_err (api.try_afi a) (bad_afi_number a)
    safi ← or_err (api.try_safi b) (bad_safi_number b)
    ok (record { afi = afi; safi = safi })

  -- `AdvertiseSource::deserialize`
  unfoldable pub deserialize_advertise_source : Text → Outcome FormatError AdvertiseSource
  deserialize_advertise_source s =
      let lower = api.lower s in
      if lower == text "api"
      then ok AdvertiseSource.api
      else if lower == text "config"
      then ok AdvertiseSource.config
      else if lower == text "peer"
      then ok AdvertiseSource.peer
      else err (bad_source s)
