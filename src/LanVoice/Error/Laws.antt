-- ===== src/LanVoice/Error/Laws.antt =====
-- The codes tell the errors apart, and the fallback is what the mapping says.
use codex_keyboard_windows.Base.{◌≡◌, ◌↔◌, true, arith}
use codex_keyboard_windows.LanVoice.Error.{
  AsrError, asr_unavailable, qwen_error_allows_offline_fallback, map_qwen_error,
}

-- An error of the remote speech recognition allows the offline fallback exactly if it is reported
-- as recognition being unavailable.
pub fallback_iff :
    (e : AsrError)
    → (qwen_error_allows_offline_fallback e ≡ true) ↔ (map_qwen_error e ≡ asr_unavailable)
unfolding qwen_error_allows_offline_fallback map_qwen_error
fallback_iff e = ground arith
