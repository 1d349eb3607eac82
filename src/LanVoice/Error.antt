-- ===== src/LanVoice/Error.antt =====
-- The errors of app/host/src/lan_voice.rs and of the remote speech recognition that it calls.
pub mod Laws
use Prim.Native.String.{String}
use codex_keyboard_windows.Base.{Bool, true, false}

pub data LanVoiceError : Type 0 where
  io invalid_packet invalid_session authentication invalid_sequence capture_limit : LanVoiceError
  capture_too_short asr_unavailable asr_timeout asr_failed remote_asr_rejected : LanVoiceError
  remote_asr_invalid_audio remote_asr_protocol invalid_transcript : LanVoiceError

-- `AsrError` of app/host/src/dashscope.rs.
pub data AsrError : Type 0 where
  invalid_audio rejected rate_limited unavailable protocol : AsrError

unfoldable pub error_code : LanVoiceError → String
error_code io = "io"
error_code invalid_packet = "invalid_packet"
error_code invalid_session = "invalid_session"
error_code authentication = "authentication"
error_code invalid_sequence = "invalid_sequence"
error_code capture_limit = "capture_limit"
error_code capture_too_short = "capture_too_short"
error_code asr_unavailable = "asr_unavailable"
error_code asr_timeout = "asr_timeout"
error_code asr_failed = "asr_failed"
error_code remote_asr_rejected = "remote_asr_rejected"
error_code remote_asr_invalid_audio = "remote_asr_invalid_audio"
error_code remote_asr_protocol = "remote_asr_protocol"
error_code invalid_transcript = "invalid_transcript"

unfoldable pub qwen_error_allows_offline_fallback : AsrError → Bool
qwen_error_allows_offline_fallback rate_limited = true
qwen_error_allows_offline_fallback unavailable = true
qwen_error_allows_offline_fallback _ = false

unfoldable pub map_qwen_error : AsrError → LanVoiceError
map_qwen_error rejected = remote_asr_rejected
map_qwen_error invalid_audio = remote_asr_invalid_audio
map_qwen_error protocol = remote_asr_protocol
map_qwen_error rate_limited = asr_unavailable
map_qwen_error unavailable = asr_unavailable
