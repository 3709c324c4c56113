-- ===== src/Ltp/Engine/Reach.antt =====
-- Every run of the engine of kiss-interface/ltp.c, as a sequence of calls of its functions.
use ion_dtn_terrestrial.Prelude.{
  ℕ, ◌+◌, ◌≤◌, ◌&&◌, zero, suc, Bool-cases, List, [], ◌∷◌, length, Option, refl, inl, inr, arith,
  All, replicate,
}
use ion_dtn_terrestrial.Prelude.Bits.{Bytes}
use ion_dtn_terrestrial.Ltp.Types.{max_block_size}
use ion_dtn_terrestrial.Ltp.Engine.State.{
  Timespec, Timer, TimerType, checkpoint_timer, report_timer, cancel_timer, Engine, Config, Link,
  ImportSession, max_import_sessions,
}
use ion_dtn_terrestrial.Ltp.Engine.Endpoints.{
  no_import, new_engine, ltp_engine_init, ltp_register_endpoint,
}
use ion_dtn_terrestrial.Ltp.Engine.Export.{ltp_send_block}
use ion_dtn_terrestrial.Ltp.Engine.Process.{
  is_numbered_export, ltp_process_segment, ltp_cancel_session,
}
use ion_dtn_terrestrial.Ltp.Engine.Timers.{is_expired}
use ion_dtn_terrestrial.Ltp.Engine.Fire.{
  give_up, is_numbered_import, is_last_retry, fire_one, fire_timers, ltp_fire_expired_timers,
}
use ion_dtn_terrestrial.Ltp.Engine.Frame.{SameImports, close_export-SameImports}
use ion_dtn_terrestrial.Ltp.RecvMap.Coverage.{covered}
use ion_dtn_terrestrial.Ltp.Engine.Delivery.{HoldsOwn, IsSent, Sound, Sound-SameImports}
use ion_dtn_terrestrial.Ltp.Engine.Reception.{close_import-Sound}
use ion_dtn_terrestrial.Ltp.Engine.Genuine.{IsGenuine, process_segment-Sound}
use ion_dtn_terrestrial.Ltp.Engine.Sending.{
  send_block-SameImports, cancel_session-SameImports, retransmit-SameImports,
}

All-replicate :
    (P : ImportSession → Type 0) (n : ℕ) (x : ImportSession) → P x → All P (replicate n x)
All-replicate P zero x h = tt
All-replicate P (suc n) x h = (h, All-replicate P n x h)

register_endpoint-SameImports :
    (eid : Bytes) (eng : Engine) → SameImports eng (ltp_register_endpoint eid eng).0
unfolding ltp_register_endpoint
register_endpoint-SameImports eid eng = ground arith

module _ (blocks : ℕ → ℕ → Bytes) where
  no_import-HoldsOwn : HoldsOwn blocks no_import
  no_import-HoldsOwn = record {
    map_valid = record { few = omega arith; gapped = tt };
    received = λ x c. unfold covered in cc;
    len_known = inl refl;
    complete_whole = λ c. cc;
  }

  engine_init-Sound :
      (eid : Bytes) (config : Option Config) → Sound blocks (ltp_engine_init eid config).0
  unfolding ltp_engine_init
  engine_init-Sound eid config =
      Sound-SameImports blocks (register_endpoint-SameImports eid (new_engine eid config)) (record {
        sessions = All-replicate (HoldsOwn blocks) max_import_sessions no_import no_import-HoldsOwn;
        deliveries = tt;
      })

  give_up-Sound :
      (type : TimerType) (number : ℕ) (eng : Engine)
      → Sound blocks eng
      → Sound blocks (give_up type number eng)
  unfolding give_up
  give_up-Sound checkpoint_timer number eng h =
      Sound-SameImports blocks (close_export-SameImports (is_numbered_export number) eng) h
  give_up-Sound report_timer number eng h =
      close_import-Sound blocks (is_numbered_import number) eng h
  give_up-Sound cancel_timer number eng h = h

  fire_one-Sound :
      (link : Link) (now : Timespec) (t : Timer) (eng : Engine)
      → Sound blocks eng
      → Sound blocks (fire_one link now t eng).1
  unfolding fire_one
  fire_one-Sound link now t eng h =
      let given_up = give_up-Sound t.type t.session_number eng h in
      let resent =
        Sound-SameImports blocks (retransmit-SameImports t.type link t.session_number t.serial eng)
          h in
      elim (Bool-cases (t.active && is_expired now t)) [
        | inl fires ↦
            rw (fires, fire_one)
              (elim (Bool-cases (is_last_retry eng.config.max_retries (t.retries + 1))) [
                | inl last ↦ rw last given_up
                | inr more ↦ rw more resent
              ])
        | inr waits ↦ rw (waits, fire_one) h
      ]

  fire_timers-Sound :
      (link : Link) (now : Timespec) (timers : List Timer) (eng : Engine)
      → Sound blocks eng
      → Sound blocks (fire_timers link now timers eng).1
  unfolding fire_timers
  fire_timers-Sound link now [] eng h = h
  fire_timers-Sound link now (t ∷ timers) eng h =
      fire_timers-Sound link now timers _ (fire_one-Sound link now t eng h)

  fire_expired-Sound :
      (link : Link) (now : Timespec) (eng : Engine)
      → Sound blocks eng
      → Sound blocks (ltp_fire_expired_timers link now eng).0
  unfolding ltp_fire_expired_timers
  fire_expired-Sound link now eng h =
      let fired = fire_timers-Sound link now eng.timers eng h in
      record { sessions = fired.sessions; deliveries = fired.deliveries }

  module _ (small : (id number : ℕ) → length (blocks id number) ≤ max_block_size) where
    -- The engines that are reached from `ltp_engine_init` by calls of the engine's functions, in any
    -- order and at any time, if every data segment that arrives is genuine.
    pub data IsReached (link : Link) : Engine → Type 0 where
      start : (eid : Bytes) (config : Option Config) → IsReached link (ltp_engine_init eid config).0
      register :
          (eid : Bytes) {eng : Engine}
          → IsReached link eng
          → IsReached link (ltp_register_endpoint eid eng).0
      process :
          (now : Timespec) (buf : Bytes) {eng : Engine}
          → IsGenuine blocks small buf
          → IsReached link eng
          → IsReached link (ltp_process_segment link now buf eng).0
      send :
          (now : Timespec) (eid block : Bytes) {eng : Engine}
          → IsReached link eng
          → IsReached link (ltp_send_block link now eid block eng).0
      cancel :
          (now : Timespec) (number : ℕ) {eng : Engine}
          → IsReached link eng
          → IsReached link (ltp_cancel_session link now number eng).0
      fire :
          (now : Timespec) {eng : Engine}
          → IsReached link eng
          → IsReached link (ltp_fire_expired_timers link now eng).0

    IsReached-Sound : (link : Link) (eng : Engine) → IsReached link eng → Sound blocks eng
    IsReached-Sound link _ (start eid config) = engine_init-Sound eid config
    IsReached-Sound link _ (register eid {eng} r) =
        Sound-SameImports blocks (register_endpoint-SameImports eid eng)
          (IsReached-Sound link eng r)
    IsReached-Sound link _ (process now buf {eng} genuine r) =
        process_segment-Sound blocks small link now buf eng genuine (IsReached-Sound link eng r)
    IsReached-Sound link _ (send now eid block {eng} r) =
        Sound-SameImports blocks (send_block-SameImports link now eid block eng)
          (IsReached-Sound link eng r)
    IsReached-Sound link _ (cancel now number {eng} r) =
        Sound-SameImports blocks (cancel_session-SameImports link now number eng)
          (IsReached-Sound link eng r)
    IsReached-Sound link _ (fire now {eng} r) =
        fire_expired-Sound link now eng (IsReached-Sound link eng r)

    -- However the calls are interleaved and however segments are lost, repeated and reordered: if every
    -- data segment that arrives is a part of the block that its sender has under its session number,
    -- every block that the engine has delivered is the whole block of its sender under some number.
    pub deliveries-IsSent :
        (link : Link) (eng : Engine) → IsReached link eng → All (IsSent blocks) eng.deliveries
    deliveries-IsSent link eng r = (IsReached-Sound link eng r).deliveries
