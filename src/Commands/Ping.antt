-- ===== src/Commands/Ping.antt =====
-- The command ping of kiss-interface/main.c. What poll, read, write and the clock yield is given
-- ping by ping; where the lists end, `g_running` has been cleared. Round-trip times, which are only
-- printed, are left out; `count` and `timeout_ms` are above 0 after the validation of the options,
-- and a time that has passed is taken to fit an `int` of milliseconds.
pub mod Counts
pub mod Wait
use ion_dtn_terrestrial.Prelude.{
  ℕ, zero, suc, ◌+◌, ◌-◌, ◌*◌, ◌/◌, ◌%◌, ◌^◌, Bool, true, false, ◌==◌, if◌then◌else◌, List, [], ◌∷◌,
  ◌++◌, length, Option, none, some, ◌>>=◌, ◌>>◌,
}
use ion_dtn_terrestrial.Prelude.Bits.{Bytes}
use ion_dtn_terrestrial.Kiss.{
  Decoder, Outcome, frame, kiss_decoder_init, kiss_decoder_feed, kiss_encode, max_payload,
}
use ion_dtn_terrestrial.Ax25.{ax25_build_frame, ax25_strip_frame, hdr_len, max_info}
use ion_dtn_terrestrial.Commands.{Fields, strip_in_buffers}
use ion_dtn_terrestrial.Ping.{ping_build_payload, ping_parse_payload, ping_payload_len}

-- The frame of one ping.
unfoldable pub ping_frame : Bytes → Bytes → ℕ → ℕ → Option Bytes
ping_frame dst src seq tx_us = do
  payload_buf ← ping_build_payload (seq % 2 ^ 16) tx_us ping_payload_len
  ax25_frame ← ax25_build_frame dst src payload_buf (hdr_len + max_info)
  kiss_encode ax25_frame (3 + (hdr_len + max_info) * 2)

-- `reply_seq != (uint16_t)seq`, and what comes before it.
abbrev pub matching_seq : ℕ → Option (ℕ × ℕ) → Bool
matching_seq seq none = false
matching_seq seq (some (reply_seq, reply_tx_us)) = reply_seq == seq % 2 ^ 16

abbrev pub matching_fields : ℕ → Option (Bytes × Bytes × Bytes) → Bool
matching_fields seq none = false
matching_fields seq (some (src, dst, info)) = matching_seq seq (ping_parse_payload info)

-- What one call of poll, and of read behind it, yields, and the clock afterwards.
pub data WaitEvent : Type 0 where
  interrupted poll_failed timed_out no_input read_failed : WaitEvent
  read_bytes : Bytes → WaitEvent

abbrev pub WaitRound : Type 0
WaitRound = WaitEvent × ℕ

-- `remaining_ms`, as far as it is above 0.
abbrev pub remaining : ℕ → ℕ → ℕ → ℕ
remaining timeout_ms wait_start now_us = timeout_ms - (now_us - wait_start) / 1000

-- How the wait for a reply ends.
pub data Waited : Type 0 where
  replied unanswered stopped : Waited

-- `while (remaining_ms > 0 && g_running)`
abbrev pub while_time : ℕ → Waited → Waited
while_time remaining_ms rest = if remaining_ms == 0 then unanswered else rest

-- What happens during one ping. A short write counts as a success.
pub record PingRound : Type 0 where
  pub tx_us : ℕ
  pub write_ok : Bool
  pub wait_start : ℕ
  pub rounds : List WaitRound

-- `written` lists the frames that were written, oldest first.
pub record PingStats : Type 0 where
  pub sent : ℕ
  pub received : ℕ
  pub written : List Bytes

-- The Boolean says whether the loop goes on.
abbrev pub after_wait : PingStats → Waited → PingStats × Bool
after_wait stats stopped = (stats, false)
after_wait stats unanswered = (stats, true)
after_wait stats replied = (record stats { received = suc stats.received }, true)

abbrev pub count_sent : PingStats → Bytes → PingStats
count_sent stats kiss_frame = record stats {
  sent = suc stats.sent;
  written = stats.written ++ (kiss_frame ∷ []);
}

module _ (overflown : Fields → Option Fields) where
  unfoldable pub is_reply : ℕ → Outcome → Bool
  unfolding strip_in_buffers
  is_reply seq (frame kiss_payload) = matching_fields seq (strip_in_buffers overflown kiss_payload)
  is_reply seq _ = false

  -- The bytes of one reading, up to the reply.
  unfoldable pub ping_bytes : ℕ → Decoder → Bytes → Decoder × Bool
  unfolding is_reply
  ping_bytes seq dec [] = (dec, false)
  ping_bytes seq dec (b ∷ read_buf) =
      let (dec', outcome) = kiss_decoder_feed dec b max_payload in
      let rest = ping_bytes seq dec' read_buf in if is_reply seq outcome then (dec', true) else rest

  unfoldable pub wait_rounds : ℕ → ℕ → ℕ → Decoder → List WaitRound → Waited
  unfolding ping_bytes
  wait_rounds seq timeout_ms wait_start dec [] = stopped
  wait_rounds seq timeout_ms wait_start dec ((interrupted, now_us) ∷ rounds) =
      while_time (remaining timeout_ms wait_start now_us)
        (wait_rounds seq timeout_ms wait_start dec rounds)
  wait_rounds seq timeout_ms wait_start dec ((no_input, now_us) ∷ rounds) =
      while_time (remaining timeout_ms wait_start now_us)
        (wait_rounds seq timeout_ms wait_start dec rounds)
  wait_rounds seq timeout_ms wait_start dec ((poll_failed, now_us) ∷ rounds) = unanswered
  wait_rounds seq timeout_ms wait_start dec ((timed_out, now_us) ∷ rounds) = unanswered
  wait_rounds seq timeout_ms wait_start dec ((read_failed, now_us) ∷ rounds) = unanswered
  wait_rounds seq timeout_ms wait_start dec ((read_bytes read_buf, now_us) ∷ rounds) =
      let (dec', got_reply) = ping_bytes seq dec read_buf in
      let rest =
        while_time (remaining timeout_ms wait_start now_us)
          (wait_rounds seq timeout_ms wait_start dec' rounds) in
      if got_reply then replied else rest

  unfoldable pub wait_reply : ℕ → ℕ → ℕ → List WaitRound → Waited
  unfolding wait_rounds
  wait_reply seq timeout_ms wait_start rounds =
      while_time timeout_ms (wait_rounds seq timeout_ms wait_start kiss_decoder_init rounds)

  unfoldable pub send_ping : ℕ → ℕ → PingRound → PingStats → Option Bytes → PingStats × Bool
  unfolding wait_reply
  send_ping timeout_ms seq ping stats none = (stats, false)
  send_ping timeout_ms seq ping stats (some kiss_frame) =
      if ping.write_ok
      then after_wait (count_sent stats kiss_frame)
          (wait_reply seq timeout_ms ping.wait_start ping.rounds)
      else (stats, false)

  -- With n pings to go from `seq` on.
  unfoldable pub ping_loop : Bytes → Bytes → ℕ → ℕ → ℕ → List PingRound → PingStats → PingStats
  unfolding ping_frame send_ping
  ping_loop src dst timeout_ms zero seq pings stats = stats
  ping_loop src dst timeout_ms (suc n) seq [] stats = stats
  ping_loop src dst timeout_ms (suc n) seq (ping ∷ pings) stats =
      let (stats', going_on) =
        send_ping timeout_ms seq ping stats (ping_frame dst src seq ping.tx_us) in
      let rest = ping_loop src dst timeout_ms n (suc seq) pings stats' in
      if going_on then rest else stats'

  unfoldable pub cmd_ping : Bytes → Bytes → ℕ → ℕ → List PingRound → PingStats
  unfolding ping_loop
  cmd_ping src dst count timeout_ms pings =
      ping_loop src dst timeout_ms count 1 pings (record { sent = 0; received = 0; written = [] })
