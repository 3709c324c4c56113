-- ===== src/Ltp/Engine/Timers.antt =====
-- Starting and cancelling timers, and the time until the next one expires.
use ion_dtn_terrestrial.Prelude.{
  ℕ, ◌+◌, ◌-◌, ◌*◌, ◌/◌, ◌%◌, ◌^◌, Bool, true, false, not, ◌&&◌, ◌==◌, leb, ltb, if◌then◌else◌,
  List, [], ◌∷◌, Option, none, some,
}
use ion_dtn_terrestrial.Ltp.Engine.State.{
  Timespec, TimerType, checkpoint_timer, report_timer, cancel_timer, Timer, Engine, modify_first,
}

abbrev pub duration_ms : ℕ → ℕ
duration_ms owlt_ms = 2 * owlt_ms + 200

-- `now` and a number of milliseconds.
unfoldable pub add_ms : Timespec → ℕ → Timespec
add_ms now ms =
    let sec = now.tv_sec + ms / 1000 in
    let nsec = now.tv_nsec + ms % 1000 * 1000000 in
    if leb 1000000000 nsec
    then record { tv_sec = sec + 1; tv_nsec = nsec - 1000000000 }
    else record { tv_sec = sec; tv_nsec = nsec }

-- The first inactive slot is used; with none the timer is not started.
unfoldable pub ltp_start_timer : Timespec → TimerType → ℕ → ℕ → ℕ → Engine → Engine
unfolding add_ms
ltp_start_timer now type session_engine_id session_number serial eng = record eng {
  timers =
      modify_first (λ (t : Timer). not t.active)
        (λ _. record {
          active = true;
          type = type;
          session_engine_id = session_engine_id;
          session_number = session_number;
          serial = serial;
          retries = 0;
          expiry = add_ms now (duration_ms eng.config.owlt_ms);
        })
        eng.timers;
}

unfoldable pub same_type : TimerType → TimerType → Bool
same_type checkpoint_timer checkpoint_timer = true
same_type report_timer report_timer = true
same_type cancel_timer cancel_timer = true
same_type _ _ = false

unfoldable pub ltp_cancel_timer : TimerType → ℕ → ℕ → Engine → Engine
unfolding same_type
ltp_cancel_timer type session_number serial eng = record eng {
  timers =
      modify_first
        (λ (t : Timer).
          t.active
          && (same_type t.type type && (t.session_number == session_number && t.serial == serial)))
        (λ (t : Timer). record t { active = false }) eng.timers;
}

-- `diff_sec * 1000 + diff_ns / 1000000`, and 0 where that is negative. The C division rounds
-- towards 0.
unfoldable pub remaining_ms : Timespec → Timespec → ℕ
remaining_ms now expiry =
    if leb now.tv_nsec expiry.tv_nsec
    then (expiry.tv_sec * 1000 + (expiry.tv_nsec - now.tv_nsec) / 1000000) - now.tv_sec * 1000
    else expiry.tv_sec * 1000 - (now.tv_sec * 1000 + (now.tv_nsec - expiry.tv_nsec) / 1000000)

-- `(int)diff_ms`, with `none` for a negative int: which one it is makes no difference to the loop
-- or to a caller.
unfoldable pub int_of : ℕ → Option ℕ
int_of diff_ms = let low = diff_ms % 2 ^ 32 in if ltb low (2 ^ 31) then some low else none

-- `min_ms < 0 || ms < min_ms`
abbrev pub is_shorter : Option ℕ → Option ℕ → Bool
is_shorter ms none = true
is_shorter none (some min_ms) = true
is_shorter (some ms) (some min_ms) = ltb ms min_ms

unfoldable pub shortest : Timespec → List Timer → Option ℕ → Option ℕ
unfolding remaining_ms int_of
shortest now [] min_ms = min_ms
shortest now (t ∷ timers) min_ms =
    let ms = int_of (remaining_ms now t.expiry) in
    shortest now timers (if t.active && is_shorter ms min_ms then ms else min_ms)

-- `none` is a negative value: -1 where no timer is active, and what an int makes of 2 ^ 31
-- milliseconds and more.
unfoldable pub ltp_get_next_timeout_ms : Timespec → Engine → Option ℕ
unfolding shortest
ltp_get_next_timeout_ms now eng = shortest now eng.timers none

-- `expiry <= now`
unfoldable pub is_expired : Timespec → Timer → Bool
is_expired now t =
    not (ltb now.tv_sec t.expiry.tv_sec)
    && not (t.expiry.tv_sec == now.tv_sec && ltb now.tv_nsec t.expiry.tv_nsec)
