-- ===== src/Session/Run/Sound/Sending.antt =====
-- src/session/lib.rs: sending keeps a session sound.
use bgpd_rs.Base.{
  arith, ℕ, ◌≡◌, refl, ◌⊎◌, inl, inr, [], ◌∷◌, ◌++◌, Option, none, some, Outcome, ok, err, panic,
}
use bgpd_rs.Base.Within.{Every, Every-append}
use bgpd_rs.Bgp.{IpAddr, Message}
use bgpd_rs.Session.HoldTimer
use bgpd_rs.Session.Peer.{Session, established, deliver, send_message, notify}
use bgpd_rs.Session.Run.{send_or_fail, send_or_log}
use bgpd_rs.Session.Run.Sound.{Past, Allowed, NoUpdate, IsSound, Leaves}

abbrev pub same : Session → Session
same s = s

module _ (addr : IpAddr) (past : Past) where
  -- A message may be sent if it is allowed, and if it is an UPDATE only in state Established.
  abbrev pub MaySend : Session → Message → Type 0
  MaySend s m = Allowed past s.addr m × ((s.state ≡ established) ⊎ NoUpdate m)

  still_quiet :
      (s : Session) (m : Message)
      → (s.state ≡ established) ⊎ NoUpdate m
      → (s.state ≡ established) ⊎ Every NoUpdate s.protocol.sent
      → (s.state ≡ established) ⊎ Every NoUpdate (s.protocol.sent ++ m ∷ [])
  still_quiet s m (inl e) h = inl e
  still_quiet s m (inr n) (inl e) = inl e
  still_quiet s m (inr n) (inr h) = inr (Every-append NoUpdate s.protocol.sent (m ∷ []) h (n, tt))

  deliver-IsSound :
      (s : Session) (m : Message) (now : ℕ) (o : Option ℕ)
      → MaySend s m
      → IsSound addr past s
      → Leaves same (IsSound addr past) (deliver s m now o)
  unfolding deliver HoldTimer.sent
  deliver-IsSound s m now (some e) p w = record {
    at = w.at;
    config = w.config;
    routes = w.routes;
    allowed = w.allowed;
    quiet = w.quiet;
    accepted = w.accepted;
  }
  deliver-IsSound s m now none (p, q) w = record {
    at = w.at;
    config = w.config;
    routes = w.routes;
    allowed = Every-append (Allowed past s.addr) s.protocol.sent (m ∷ []) w.allowed (p, tt);
    quiet = still_quiet s m q w.quiet;
    accepted = w.accepted;
  }

  pub send_message-IsSound :
      (s : Session) (m : Message) (now : ℕ)
      → MaySend s m
      → IsSound addr past s
      → Leaves same (IsSound addr past) (send_message s m now)
  unfolding send_message
  send_message-IsSound s m now p w =
      deliver-IsSound s m now (s.protocol.outcome s.protocol.attempts) p w

  or_fail :
      (s : Session) (m : Message) (now : ℕ) (r : Outcome (ℕ × Session) Session)
      → send_message s m now ≡ r
      → Leaves same (IsSound addr past) r
      → Leaves same (IsSound addr past) (send_or_fail s m now)
  unfolding send_or_fail
  or_fail s m now (ok s') e h = rw (Leaves, e) h
  or_fail s m now (err (x, s')) e h = rw (Leaves, e) h
  or_fail s m now panic e h = rw (Leaves, e) h

  pub send_or_fail-IsSound :
      (s : Session) (m : Message) (now : ℕ)
      → MaySend s m
      → IsSound addr past s
      → Leaves same (IsSound addr past) (send_or_fail s m now)
  send_or_fail-IsSound s m now p w =
      or_fail s m now (send_message s m now) refl (send_message-IsSound s m now p w)

  or_log :
      (s : Session) (m : Message) (now : ℕ) (r : Outcome (ℕ × Session) Session)
      → send_message s m now ≡ r
      → Leaves same (IsSound addr past) r
      → Leaves same (IsSound addr past) (send_or_log s m now)
  unfolding send_or_log
  or_log s m now (ok s') e h = rw (Leaves, e) h
  or_log s m now (err (x, s')) e h = rw (Leaves, e) h
  or_log s m now panic e h = rw (Leaves, e) h

  pub send_or_log-IsSound :
      (s : Session) (m : Message) (now : ℕ)
      → MaySend s m
      → IsSound addr past s
      → Leaves same (IsSound addr past) (send_or_log s m now)
  send_or_log-IsSound s m now p w =
      or_log s m now (send_message s m now) refl (send_message-IsSound s m now p w)

  pub notify-IsSound :
      (s : Session) (maj min now : ℕ)
      → IsSound addr past s
      → Leaves same (IsSound addr past) (notify s maj min now)
  unfolding notify
  notify-IsSound s maj min now w = send_message-IsSound s _ now (tt, inr tt) w

-- What sending leaves as it was.
pub send_or_fail-keeps :
    (s : Session) (m : Message) (now : ℕ) {s' : Session}
    → send_or_fail s m now ≡ ok s'
    → (s'.state ≡ s.state) × (s'.addr ≡ s.addr) × (s'.config ≡ s.config) × (s'.routes ≡ s.routes)
unfolding send_or_fail send_message deliver
send_or_fail-keeps s m now h = ground arith
