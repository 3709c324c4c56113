-- ===== src/Ltp/Engine/TimerRuns.antt =====
-- The timers of kiss-interface/ltp.c at concrete times.
use ion_dtn_terrestrial.Prelude.{true, [], ◌∷◌, none, some, ◌≡◌, refl, arith}
use ion_dtn_terrestrial.Ltp.Engine.State.{Timespec, checkpoint_timer, Timer, Engine, Link}
use ion_dtn_terrestrial.Ltp.Engine.Endpoints.{new_engine}
use ion_dtn_terrestrial.Ltp.Engine.Timers.{add_ms, remaining_ms, ltp_get_next_timeout_ms}
use ion_dtn_terrestrial.Ltp.Engine.Fire.{ltp_fire_expired_timers}
use ion_dtn_terrestrial.Ltp.Engine.Waiting.{fire_expired-waits}

abbrev link : Link
link = record { fd_valid = true; write_ok = λ _ _. true }

abbrev now : Timespec
now = record { tv_sec = 100; tv_nsec = 900000000 }

abbrev timer : Timer
timer = record {
  active = true;
  type = checkpoint_timer;
  session_engine_id = 5;
  session_number = 1;
  serial = 1;
  retries = 0;
  expiry = record { tv_sec = 161; tv_nsec = 100000000 };
}

-- An engine with one timer, which is still running.
abbrev eng : Engine
eng = record (new_engine [] none) { timers = timer ∷ [] }

expiry_of_now : add_ms now 60200 ≡ timer.expiry
unfolding add_ms
expiry_of_now = refl

next_timeout : ltp_get_next_timeout_ms now eng ≡ some 60200
unfolding ltp_get_next_timeout_ms
next_timeout = refl

fire_expired-waits_example : ltp_fire_expired_timers link now eng ≡ (eng, 0)
fire_expired-waits_example =
    fire_expired-waits link now eng ((omega arith, unfold remaining_ms in omega arith), tt)
      (λ e. cc (e, next_timeout))
