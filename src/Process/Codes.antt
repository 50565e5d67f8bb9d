-- ===== src/Process/Codes.antt =====
-- The codes of the states agree: in memory, in the protocol and behind `convert_process_status`
-- (mcproc/src/daemon/process/proxy.rs, mcproc/src/daemon/api/grpc/helpers.rs, mcproc/src/common/status.rs).
use mcproc.Prelude.{◌≡◌, refl, some, pos}
use mcproc.Process.Status.{
  ProcessStatus, starting, running, stopping, stopped, failed, to_u8, from_u8, to_proto,
  proto_number, proto_try_from, convert_process_status,
}

-- For every state: the byte that is stored for it gives it back; the number that the daemon sends is that
-- byte, which is also the number of the state in the protocol; and a client decodes it to that state.
pub status_codes :
    (s : ProcessStatus)
    → (from_u8 (to_u8 s) ≡ s)
      × (convert_process_status s ≡ to_u8 s)
      × (proto_number (to_proto s) ≡ to_u8 s)
      × (proto_try_from (pos (to_u8 s)) ≡ some (to_proto s))
unfolding from_u8 to_u8 to_proto proto_number proto_try_from convert_process_status
status_codes starting = (refl, refl, refl, refl)
status_codes running = (refl, refl, refl, refl)
status_codes stopping = (refl, refl, refl, refl)
status_codes stopped = (refl, refl, refl, refl)
status_codes failed = (refl, refl, refl, refl)
