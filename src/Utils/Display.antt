-- ===== src/Utils/Display.antt =====
-- src/utils/display.rs: AS numbers and times as text.
use bgpd_rs.Base.{ℕ, ◌+◌, ◌/◌, ◌%◌, ltb, if◌then◌else◌, ◌∷◌, ◌++◌}
use bgpd_rs.Base.Int.{ℤ, pos_part, neg_part, quot}
use bgpd_rs.Base.Text.{Text, text, decimal}
use bgpd_rs.Session.HoldTimer.{get_elapsed_time}
use bgpd_rs.Bgp.{Message, open_msg, keep_alive, update_msg, notification_msg, route_refresh}

unfoldable pub get_message_type : Message → Text
get_message_type keep_alive = text "KEEPALIVE"
get_message_type (open_msg _) = text "OPEN"
get_message_type (notification_msg _) = text "NOTIFICATION"
get_message_type (route_refresh _) = text "ROUTEREFRESH"
get_message_type (update_msg _) = text "UPDATE"

unfoldable pub u32_to_dotted : ℕ → ℕ → Text
u32_to_dotted asn sep =
    if ltb asn 65535
    then decimal asn
    else decimal (asn / 65536 % 65536) ++ (sep ∷ decimal (asn % 65536))

fit_with_remainder : ℕ → ℕ → ℕ × ℕ
fit_with_remainder dividend divisor = (dividend / divisor, dividend % divisor)

-- `{:02}`
two_digits : ℕ → Text
two_digits n = if ltb n 10 then b'0' ∷ decimal n else decimal n

-- `num_seconds().abs()` of a number of nanoseconds.
seconds_of : ℤ → ℕ
unfolding quot
seconds_of t = let s = quot t 1000000000 in pos_part s + neg_part s

unfoldable pub format_elapsed_time : ℤ → Text
unfolding fit_with_remainder two_digits seconds_of
format_elapsed_time elapsed =
    let (hours, remainder) = fit_with_remainder (seconds_of elapsed) 3600 in
    let (minutes, seconds) = fit_with_remainder remainder 60 in
    two_digits hours ++ (b':' ∷ (two_digits minutes ++ (b':' ∷ two_digits seconds)))

-- `format_time_as_elapsed`, at a reading of the clock.
unfoldable pub format_time_as_elapsed : ℕ → ℕ → Text
format_time_as_elapsed time now = format_elapsed_time (get_elapsed_time time now)
