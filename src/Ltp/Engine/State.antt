-- ===== src/Ltp/Engine/State.antt =====
-- The engine's state of kiss-interface/ltp.h. An array of slots is a list, of a fixed length.
use ion_dtn_terrestrial.Prelude.{
  ℕ, zero, suc, ◌+◌, ◌-◌, ◌%◌, ◌^◌, Bool, ◌&&◌, leb, ltb, if◌then◌else◌, List, [], ◌∷◌, length,
  Option, none, some,
}
use ion_dtn_terrestrial.Prelude.Bits.{Bytes}
use ion_dtn_terrestrial.Ltp.Types.{Claim}

abbrev pub max_export_sessions : ℕ
max_export_sessions = 128

abbrev pub max_import_sessions : ℕ
max_import_sessions = 128

abbrev pub max_timers : ℕ
max_timers = 256

abbrev pub max_endpoints : ℕ
max_endpoints = 8

abbrev pub default_segment_mtu : ℕ
default_segment_mtu = 64

pub record Timespec : Type 0 where
  pub tv_sec : ℕ
  pub tv_nsec : ℕ

-- The `type` of a timer: 0, 1 and 2.
pub data TimerType : Type 0 where
  checkpoint_timer report_timer cancel_timer : TimerType

pub record Timer : Type 0 where
  pub active : Bool
  pub type : TimerType
  pub session_engine_id : ℕ
  pub session_number : ℕ
  pub serial : ℕ
  pub retries : ℕ
  pub expiry : Timespec

-- `block_data` holds the `block_len` bytes of the block.
pub record ExportSession : Type 0 where
  pub active : Bool
  pub engine_id : ℕ
  pub session_number : ℕ
  pub remote_engine_id : ℕ
  pub block_data : Bytes
  pub block_len : ℕ
  pub segment_mtu : ℕ
  pub next_cp_serial : ℕ
  pub completed : Bool
  pub cancelled : Bool

-- `block_data` gives the byte at each index of the array.
pub record ImportSession : Type 0 where
  pub active : Bool
  pub engine_id : ℕ
  pub session_number : ℕ
  pub block_data : ℕ → ℕ
  pub block_len : ℕ
  pub recv_map : List Claim
  pub next_rpt_serial : ℕ
  pub complete : Bool
  pub delivered : Bool

pub record Endpoint : Type 0 where
  pub eid : Bytes
  pub engine_id : ℕ

-- A callsign is empty where its array begins with NUL. (`verbose` only controls the log.)
pub record Config : Type 0 where
  pub segment_mtu : ℕ
  pub owlt_ms : ℕ
  pub max_retries : ℕ
  pub max_block_size : ℕ
  pub src_call : Bytes
  pub dst_call : Bytes

-- A call of `on_block_received`.
pub record Delivery : Type 0 where
  pub block : Bytes
  pub remote_engine_id : ℕ

-- `endpoints` is the filled part of its array. `deliveries` lists the calls of the callback, and
-- `written` the buffers that were written to the port, oldest first.
pub record Engine : Type 0 where
  pub config : Config
  pub local_engine_id : ℕ
  pub local_eid : Bytes
  pub next_session_number : ℕ
  pub export_sessions : List ExportSession
  pub import_sessions : List ImportSession
  pub timers : List Timer
  pub endpoints : List Endpoint
  pub deliveries : List Delivery
  pub written : List Bytes
  pub segments_sent : ℕ
  pub segments_received : ℕ
  pub blocks_delivered : ℕ
  pub sessions_completed : ℕ
  pub sessions_cancelled : ℕ

-- The port: whether `fd >= 0`, and whether `write` accepts a buffer after those written before.
pub record Link : Type 0 where
  pub fd_valid : Bool
  pub write_ok : List Bytes → Bytes → Bool

abbrev pub inc32 : ℕ → ℕ
inc32 n = (n + 1) % 2 ^ 32

abbrev pub inc64 : ℕ → ℕ
inc64 n = (n + 1) % 2 ^ 64

-- `for (i ...) if (test) { ...; break; }` over an array: the index of the first hit, and the
-- change of the first hit alone.
module _ {A : Type 0} where
  unfoldable pub find_index : (A → Bool) → List A → Option ℕ
  find_index test [] = none
  find_index test (x ∷ xs) =
      let later : Option ℕ = elim (find_index test xs) [ none ↦ none | some i ↦ some (suc i) ] in
      if test x then some 0 else later

  unfoldable pub find_first : (A → Bool) → List A → Option A
  find_first test [] = none
  find_first test (x ∷ xs) = if test x then some x else find_first test xs

  unfoldable pub modify_first : (A → Bool) → (A → A) → List A → List A
  modify_first test change [] = []
  modify_first test change (x ∷ xs) =
      if test x then change x ∷ xs else x ∷ modify_first test change xs

  unfoldable pub set : List A → ℕ → A → List A
  set [] i v = []
  set (x ∷ xs) zero v = v ∷ xs
  set (x ∷ xs) (suc i) v = x ∷ set xs i v

-- The first `n` bytes of an array.
unfoldable pub bytes_of : ℕ → (ℕ → ℕ) → Bytes
bytes_of zero array = []
bytes_of (suc n) array = array 0 ∷ bytes_of n (λ i. array (suc i))

abbrev pub byte_at : Bytes → ℕ → ℕ
byte_at [] i = 0
byte_at (b ∷ bytes) zero = b
byte_at (b ∷ bytes) (suc i) = byte_at bytes i

-- `memcpy(array + offset, bytes, length)`
unfoldable pub copy_into : (ℕ → ℕ) → ℕ → Bytes → (ℕ → ℕ)
copy_into array offset bytes i =
    if leb offset i && ltb i (offset + length bytes) then byte_at bytes (i - offset) else array i
