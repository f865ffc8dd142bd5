-- ===== src/Session/Counts.antt =====
-- src/session/message_counts.rs. The counters are 64 bits wide.
use bgpd_rs.Base.{ℕ, ◌+◌, ◌%◌, ◌^◌}

pub record MessageCounts : Type 0 where
  pub received : ℕ
  pub sent : ℕ

unfoldable pub new : MessageCounts
new = record { received = 0; sent = 0 }

unfoldable pub increment_received : MessageCounts → MessageCounts
increment_received c = record c { received = (c.received + 1) % 2 ^ 64 }

unfoldable pub increment_sent : MessageCounts → MessageCounts
increment_sent c = record c { sent = (c.sent + 1) % 2 ^ 64 }
