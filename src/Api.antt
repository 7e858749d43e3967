-- ===== src/Api.antt =====
-- internal/api/server.go: the handlers of the HTTP interface. This file has how they answer; the
-- children have the handlers.
pub mod Ask
pub mod Heading
pub mod Reads
pub mod Telemetry
pub mod Upload
mod Tests
use ragline.Base.{ℕ, Bytes}

-- `writeError` and `writeJSON`: the status, and the message or the value.
pub data Reply (A : Type 0) : Type 0 where
  write_error : ℕ → Bytes → Reply A
  write_json : ℕ → A → Reply A

-- The status that `statusRecorder` keeps of an answer.
abbrev pub status_of : {A : Type 0} → Reply A → ℕ
status_of (write_error n e) = n
status_of (write_json n v) = n
