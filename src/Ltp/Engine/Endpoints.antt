-- ===== src/Ltp/Engine/Endpoints.antt =====
-- Engine identifiers and the endpoint table, and `ltp_engine_init`.
use ion_dtn_terrestrial.Prelude.{
  ℕ, ◌+◌, ◌*◌, ◌%◌, ◌^◌, Bool, true, false, ◌==◌, starts_with, leb, if◌then◌else◌, [], ◌∷◌, ◌++◌,
  length, take, drop, replicate, Option, none, some,
}
use ion_dtn_terrestrial.Prelude.Bits.{Bytes}
use ion_dtn_terrestrial.Ltp.Engine.State.{
  checkpoint_timer, Timer, ExportSession, ImportSession, Endpoint, Config, Engine,
  max_export_sessions, max_import_sessions, max_timers, max_endpoints, find_first,
}

-- "dtn://"
abbrev pub dtn_prefix : Bytes
dtn_prefix = b'd' ∷ b't' ∷ b'n' ∷ b':' ∷ b'/' ∷ b'/' ∷ []

-- `hash = ((hash << 5) + hash) + c` on uint64s.
unfoldable pub djb2 : ℕ → Bytes → ℕ
djb2 hash [] = hash
djb2 hash (c ∷ s) = djb2 ((hash * 2 ^ 5 % 2 ^ 64 + hash + c) % 2 ^ 64) s

unfoldable pub ltp_eid_to_engine_id : Bytes → ℕ
unfolding djb2
ltp_eid_to_engine_id eid = djb2 5381 (if starts_with dtn_prefix eid then drop 6 eid else eid)

-- `strncpy` into an array of 64 characters that keeps its NUL.
abbrev stored_eid : Bytes → Bytes
stored_eid eid = take 63 eid

-- The engine, and whether the function returned 0.
unfoldable pub ltp_register_endpoint : Bytes → Engine → Engine × Bool
unfolding ltp_eid_to_engine_id
ltp_register_endpoint eid eng =
    let ep : Endpoint = record { eid = stored_eid eid; engine_id = ltp_eid_to_engine_id eid } in
    if leb max_endpoints (length eng.endpoints)
    then (eng, false)
    else (record eng { endpoints = eng.endpoints ++ (ep ∷ []) }, true)

unfoldable pub ltp_engine_id_to_eid : Engine → ℕ → Option Bytes
unfolding find_first
ltp_engine_id_to_eid eng engine_id =
    elim (find_first (λ (ep : Endpoint). ep.engine_id == engine_id) eng.endpoints) [
      | none ↦ none
      | some ep ↦ some ep.eid
    ]

-- What `memset` to 0 makes of a slot.
abbrev pub no_timer : Timer
no_timer = record {
  active = false;
  type = checkpoint_timer;
  session_engine_id = 0;
  session_number = 0;
  serial = 0;
  retries = 0;
  expiry = record { tv_sec = 0; tv_nsec = 0 };
}

abbrev pub no_export : ExportSession
no_export = record {
  active = false;
  engine_id = 0;
  session_number = 0;
  remote_engine_id = 0;
  block_data = [];
  block_len = 0;
  segment_mtu = 0;
  next_cp_serial = 0;
  completed = false;
  cancelled = false;
}

abbrev pub no_import : ImportSession
no_import = record {
  active = false;
  engine_id = 0;
  session_number = 0;
  block_data = λ _. 0;
  block_len = 0;
  recv_map = [];
  next_rpt_serial = 0;
  complete = false;
  delivered = false;
}

abbrev pub default_config : Config
default_config = record {
  segment_mtu = 64;
  owlt_ms = 30000;
  max_retries = 7;
  max_block_size = 2048;
  src_call = [];
  dst_call = [];
}

-- The engine before its own endpoint is registered.
abbrev pub new_engine : Bytes → Option Config → Engine
new_engine local_eid config = record {
  config = elim config [ none ↦ default_config | some given ↦ given ];
  local_engine_id = ltp_eid_to_engine_id local_eid;
  local_eid = stored_eid local_eid;
  next_session_number = 1;
  export_sessions = replicate max_export_sessions no_export;
  import_sessions = replicate max_import_sessions no_import;
  timers = replicate max_timers no_timer;
  endpoints = [];
  deliveries = [];
  written = [];
  segments_sent = 0;
  segments_received = 0;
  blocks_delivered = 0;
  sessions_completed = 0;
  sessions_cancelled = 0;
}

unfoldable pub ltp_engine_init : Bytes → Option Config → Engine × Bool
unfolding ltp_register_endpoint
ltp_engine_init local_eid config = ltp_register_endpoint local_eid (new_engine local_eid config)
