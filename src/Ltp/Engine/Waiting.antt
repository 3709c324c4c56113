-- ===== src/Ltp/Engine/Waiting.antt =====
-- The timers of kiss-interface/ltp.c: their expiry times, and the wait until the next one.
use ion_dtn_terrestrial.Prelude.{
  ℕ, ◌+◌, ◌*◌, ◌<◌, ◌^◌, ap, ◌∙◌, if◌then◌else◌, Bool, Bool-cases, true, false, ◌&&◌, List, [], ◌∷◌,
  Option, none, some, ◌≡◌, ◌≢◌, refl, inl, inr, arith, All,
}
use ion_dtn_terrestrial.Ltp.Engine.State.{Timespec, Timer, Engine, Link}
use ion_dtn_terrestrial.Ltp.Engine.Timers.{
  add_ms, remaining_ms, int_of, shortest, ltp_get_next_timeout_ms, is_expired, is_shorter,
}
use ion_dtn_terrestrial.Ltp.Engine.Fire.{fire_one, fire_timers, ltp_fire_expired_timers}

abbrev pub nanoseconds : Timespec → ℕ
nanoseconds t = t.tv_sec * 1000000000 + t.tv_nsec

-- The nanoseconds of a time are fewer than a second.
abbrev pub IsNormal : Timespec → Type 0
IsNormal t = t.tv_nsec < 1000000000

-- From a normal time the sum with any number of milliseconds is again normal, and is later by exactly
-- that much.
add_ms-IsNormal :
    (now : Timespec) (ms : ℕ)
    → IsNormal now
    → IsNormal (add_ms now ms) × (nanoseconds (add_ms now ms) ≡ nanoseconds now + ms * 1000000)
unfolding add_ms
add_ms-IsNormal now ms h = ground arith

remaining_ms_expired :
    (now : Timespec) (t : Timer)
    → IsNormal t.expiry
    → is_expired now t ≡ true
    → remaining_ms now t.expiry ≡ 0
unfolding remaining_ms is_expired
remaining_ms_expired now t h e = ground arith

-- A time whose nanoseconds are fewer than a second, and less than 2 ^ 31 milliseconds away.
abbrev pub IsNear : Timespec → Timer → Type 0
IsNear now t = IsNormal t.expiry × (remaining_ms now t.expiry < 2 ^ 31)

int_of-near : (ms : ℕ) → ms < 2 ^ 31 → int_of ms ≡ some ms
unfolding int_of
int_of-near ms h = ground arith

zero_stays :
    (active : Bool) (ms : ℕ)
    → (if active && is_shorter (some ms) (some 0) then some ms else some 0) ≡ some 0
zero_stays active ms = ground arith

shortest_zero :
    (now : Timespec) (timers : List Timer)
    → All (IsNear now) timers
    → shortest now timers (some 0) ≡ some 0
unfolding shortest
shortest_zero now [] h = refl
shortest_zero now (t ∷ timers) ((n, near), h) =
    rw
      (
        int_of-near (remaining_ms now t.expiry) near,
        zero_stays t.active (remaining_ms now t.expiry),
      )
      (shortest_zero now timers h)

nothing_shorter :
    (min_ms : Option ℕ) → (if is_shorter (some 0) min_ms then some 0 else min_ms) ≡ some 0
nothing_shorter none = refl
nothing_shorter (some m) = ground arith

abbrev IsWaiting : Timespec → Timer → Type 0
IsWaiting now t = t.active && is_expired now t ≡ false

shortest-IsWaiting :
    (now : Timespec) (timers : List Timer) (min_ms : Option ℕ)
    → All (IsNear now) timers
    → shortest now timers min_ms ≢ some 0
    → All (IsWaiting now) timers
unfolding shortest
shortest-IsWaiting now [] min_ms h k = tt
shortest-IsWaiting now (t ∷ timers) min_ms ((n, near), h) k =
    elim (Bool-cases (t.active && is_expired now t)) [
      | inl due ↦
          let active : t.active ≡ true = ground (arith, due) in
          let left : int_of (remaining_ms now t.expiry) ≡ some 0 =
            ap int_of (remaining_ms_expired now t n (ground (arith, due)))
            ∙ int_of-near 0 (omega arith) in
          absurd (k (rw (left, active, nothing_shorter min_ms) (shortest_zero now timers h)))
      | inr waits ↦ (waits, shortest-IsWaiting now timers _ h k)
    ]

fire_timers-IsWaiting :
    (link : Link) (now : Timespec) (timers : List Timer) (eng : Engine)
    → All (IsWaiting now) timers
    → fire_timers link now timers eng ≡ (timers, eng, 0)
unfolding fire_timers fire_one
fire_timers-IsWaiting link now [] eng h = refl
fire_timers-IsWaiting link now (t ∷ timers) eng (w, h) =
    rw (w, fire_timers-IsWaiting link now timers eng h) refl

-- If the expiry of every timer in the table is normal (its nanoseconds are fewer than a second) and
-- less than 2^31 milliseconds away, so that an int holds the difference, and the wait until the
-- next timer is not 0, firing the timers changes nothing and reports that none fired: no expired
-- timer is waited for.
pub fire_expired-waits :
    (link : Link) (now : Timespec) (eng : Engine)
    → All (IsNear now) eng.timers
    → ltp_get_next_timeout_ms now eng ≢ some 0
    → ltp_fire_expired_timers link now eng ≡ (eng, 0)
unfolding ltp_get_next_timeout_ms ltp_fire_expired_timers
fire_expired-waits link now eng normal waits =
    rw
      (fire_timers-IsWaiting link now eng.timers eng
        (shortest-IsWaiting now eng.timers none normal waits))
      refl
