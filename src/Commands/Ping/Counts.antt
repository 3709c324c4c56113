-- ===== src/Commands/Ping/Counts.antt =====
-- The counts of the command ping of kiss-interface/main.c.
use ion_dtn_terrestrial.Prelude.{
  ℕ, zero, suc, ◌+◌, ◌≤◌, [], ◌∷◌, List, length, length-append, Option, none, some, ◌≡◌, arith,
  Bool-cases, inl, inr,
}
use ion_dtn_terrestrial.Prelude.Bits.{Bytes}
use ion_dtn_terrestrial.Commands.{Fields}
use ion_dtn_terrestrial.Commands.Ping.{
  Waited, stopped, unanswered, replied, PingRound, PingStats, after_wait, count_sent, wait_reply,
  ping_frame, send_ping, ping_loop, cmd_ping,
}

-- Every ping that was sent was written, at most `count` of them, and at most one reply is counted
-- for each.
abbrev pub AreCounts : ℕ → PingStats → Type 0
AreCounts count stats =
    (stats.received ≤ stats.sent) × (stats.sent ≤ count) × (length stats.written ≡ stats.sent)

after_wait-AreCounts :
    (count : ℕ) (stats : PingStats) (kiss_frame : Bytes) (waited : Waited)
    → AreCounts count stats
    → AreCounts (suc count) (after_wait (count_sent stats kiss_frame) waited).0
after_wait-AreCounts count stats k stopped h =
    omega (arith, h, length-append stats.written (k ∷ []))
after_wait-AreCounts count stats k unanswered h =
    omega (arith, h, length-append stats.written (k ∷ []))
after_wait-AreCounts count stats k replied h =
    omega (arith, h, length-append stats.written (k ∷ []))

module _ (overflown : Fields → Option Fields) where
  send_ping-AreCounts :
      (timeout_ms seq count : ℕ) (ping : PingRound) (stats : PingStats) (made : Option Bytes)
      → AreCounts count stats
      → AreCounts (suc count) (send_ping overflown timeout_ms seq ping stats made).0
  unfolding send_ping
  send_ping-AreCounts timeout_ms seq count ping stats none h = omega (arith, h)
  send_ping-AreCounts timeout_ms seq count ping stats (some k) h = elim (Bool-cases ping.write_ok) [
    | inl ok ↦ rw ok (
        after_wait-AreCounts count stats k
          (wait_reply overflown seq timeout_ms ping.wait_start ping.rounds) h)
    | inr bad ↦ rw bad (omega (arith, h))
  ]

  ping_loop-AreCounts :
      (src dst : Bytes) (timeout_ms n seq count : ℕ) (pings : List PingRound) (stats : PingStats)
      → AreCounts count stats
      → AreCounts (count + n) (ping_loop overflown src dst timeout_ms n seq pings stats)
  unfolding ping_loop
  ping_loop-AreCounts src dst timeout_ms zero seq count pings stats h = omega (arith, h)
  ping_loop-AreCounts src dst timeout_ms (suc n) seq count [] stats h = omega (arith, h)
  ping_loop-AreCounts src dst timeout_ms (suc n) seq count (ping ∷ pings) stats h =
      let made = ping_frame dst src seq ping.tx_us in
      let (stats', going_on) = send_ping overflown timeout_ms seq ping stats made in
      let one = send_ping-AreCounts timeout_ms seq count ping stats made h in
      elim (Bool-cases going_on) [
        | inl on ↦ rw on (
            let rest =
              ping_loop-AreCounts src dst timeout_ms n (suc seq) (suc count) pings stats' one in
            omega (arith, rest))
        | inr off ↦ rw off (omega (arith, one))
      ]

  -- Whatever happens on the line, cmd_ping sends at most `count` pings, has written one frame for
  -- each, and counts at most one reply for each.
  pub cmd_ping-AreCounts :
      (src dst : Bytes) (count timeout_ms : ℕ) (pings : List PingRound)
      → AreCounts count (cmd_ping overflown src dst count timeout_ms pings)
  unfolding cmd_ping
  cmd_ping-AreCounts src dst count timeout_ms pings =
      let none_yet : PingStats = record { sent = 0; received = 0; written = [] } in
      omega (arith, ping_loop-AreCounts src dst timeout_ms count 1 0 pings none_yet (omega arith))
