-- ===== src/Tests/Connections.antt =====
-- src/session/codec.rs and src/session/poller.rs: the theorems at concrete buffers and pollers.
use bgpd_rs.Base.{
  ℕ, ◌≡◌, refl, List, [], ◌∷◌, ◌++◌, Option, none, some, true, if◌then◌else◌, Outcome, ok, panic,
  arith, ◌==◌, ℕ_discrete,
}
use bgpd_rs.Base.Map
use bgpd_rs.Base.Map.{Map}
use bgpd_rs.Bgp.{v4, v4_net, Message, keep_alive, ip_addr_Eq, ip_network_Eq, IpNetwork-discrete}
use bgpd_rs.Config.{PeerConfig}
use bgpd_rs.Session.Codec.{decode}
use bgpd_rs.Session.Codec.Framing.{frame, decode-frame, decode-partial}
use bgpd_rs.Session.Peer.{open_confirm, Protocol}
use bgpd_rs.Session.Poller.{
  NetworkApi, Poller, incoming, outgoing, get_connection, replace_configs, upsert_all,
  upsert_config, get_config_for_peer, get_host_address,
}
use bgpd_rs.Session.Poller.Idle.{
  IsKeyed, Accepts, incoming-config, outgoing-unreached, replace_configs-IsKeyed,
}
use bgpd_rs.Tests.Data.{session_in, peer_config}

at_front : List ℕ → List ℕ → Option ℕ
at_front bytes wanted = some 0

read_any : List ℕ → Outcome ℕ Message
read_any bytes = ok keep_alive

decode-frame_example :
    decode at_front read_any (frame 0 19 (4 ∷ []) ++ 255 ∷ 255 ∷ [])
    ≡ ok (some keep_alive, 255 ∷ 255 ∷ [])
decode-frame_example =
    decode-frame at_front (λ n xs. unfold at_front in refl) read_any 0 19 (4 ∷ []) (255 ∷ 255 ∷ [])
      refl (unfold read_any in refl)

decode-partial_example : decode at_front read_any (frame 0 45 (2 ∷ [])) ≡ panic
decode-partial_example =
    decode-partial at_front (λ n xs. unfold at_front in refl) read_any (0 ∷ 45 ∷ 2 ∷ [])
      (omega arith)

-- Every network has all addresses, and one is a single host.
abbrev pub net : NetworkApi
net = record {
  size = λ n. if n == v4_net 0x7f000002 32 then 1 else 2;
  ip = λ n. v4 0x7f000002;
  contains = λ n a. true;
}

abbrev pub stream : Protocol
stream = (session_in open_confirm).protocol

abbrev pub empty_poller : Poller
empty_poller = record { idle_peers = []; interval = 30; delay_queue = [] }

incoming-config_example :
    (r : Option (Protocol × PeerConfig)) × (p' : Poller) × (get_connection net {E = ℕ}
        (replace_configs net empty_poller (peer_config ∷ []))
        (incoming stream (v4 0x7f000002))
      ≡ ok (r, p'))
    × IsKeyed p'.idle_peers
    × Accepts net (replace_configs net empty_poller (peer_config ∷ [])) (v4 0x7f000002) r
incoming-config_example =
    incoming-config net (replace_configs net empty_poller (peer_config ∷ [])) stream (v4 0x7f000002)
      (replace_configs-IsKeyed net empty_poller (peer_config ∷ []))

abbrev host_poller : Poller
host_poller = record {
  idle_peers = (v4_net 0x7f000002 32, peer_config) ∷ [];
  interval = 30;
  delay_queue = v4 0x7f000002 ∷ [];
}

host-IsKeyed : IsKeyed host_poller.idle_peers
unfolding replace_configs upsert_all upsert_config Map.insert
host-IsKeyed = replace_configs-IsKeyed net empty_poller (peer_config ∷ [])

outgoing-unreached_example :
    (p' : Poller) × (get_connection net {E = ℕ} host_poller (outgoing none) ≡ ok (none, p'))
    × (Map.get (v4_net 0x7f000002 32) p'.idle_peers ≡ none)
    × (p'.delay_queue ≡ v4 0x7f000002 ∷ [])
outgoing-unreached_example =
    outgoing-unreached net host_poller (v4 0x7f000002) (v4 0x7f000002) [] peer_config host-IsKeyed
      refl (unfold get_config_for_peer Map.get IpNetwork-discrete ℕ_discrete in refl) refl
      (unfold get_host_address IpNetwork-discrete ℕ_discrete in refl)
