-- ===== src/Session/HoldTimer.antt =====
-- src/session/hold_timer.rs. A time is a number of nanoseconds, and the reading of the clock is an
-- argument; the tick that `should_send_keepalive` waits for is the event that calls it.
pub mod Due
use bgpd_rs.Base.{ℕ, ◌*◌, ◌/◌, Bool, if◌then◌else◌, not, Outcome, ok, err}
use bgpd_rs.Base.Int.{ℤ, pos, sub_ℕ, ◌-ℤ◌, ltbℤ, quot}
use bgpd_rs.Session.Error.{SessionError, hold_time_expired}

pub record HoldTimer : Type 0 where
  pub hold_timer : ℕ
  pub interval : ℕ
  pub last_sent : ℕ
  pub last_received : ℕ

unfoldable pub new : ℕ → ℕ → HoldTimer
new hold_timer now = record {
  hold_timer = hold_timer;
  interval = hold_timer / 3;
  last_received = now;
  last_sent = now;
}

abbrev pub nanos : ℕ
nanos = 1000000000

-- `Duration::seconds`, and the elapsed time of src/utils/display.rs.
seconds : ℕ → ℤ
seconds n = pos (n * nanos)

unfoldable pub get_elapsed_time : ℕ → ℕ → ℤ
get_elapsed_time time now = sub_ℕ now time

unfoldable pub get_hold_time : HoldTimer → ℕ → ℤ
unfolding seconds get_elapsed_time ltbℤ ◌-ℤ◌
get_hold_time h now =
    if ltbℤ (seconds h.hold_timer) (get_elapsed_time h.last_sent now)
    then seconds 0
    else seconds h.hold_timer -ℤ get_elapsed_time h.last_sent now

is_expired : HoldTimer → ℕ → Bool
unfolding seconds get_elapsed_time ltbℤ
is_expired h now = not (ltbℤ (get_elapsed_time h.last_received now) (seconds h.hold_timer))

unfoldable pub should_send_keepalive : HoldTimer → ℕ → Outcome SessionError Bool
unfolding is_expired get_hold_time quot
should_send_keepalive h now =
    if is_expired h now
    then err (hold_time_expired h.interval)
    else ok (ltbℤ (quot (get_hold_time h now) nanos) (pos (2 * h.interval)))

unfoldable pub received : HoldTimer → ℕ → HoldTimer
received h now = record h { last_received = now }

unfoldable pub sent : HoldTimer → ℕ → HoldTimer
sent h now = record h { last_sent = now }
