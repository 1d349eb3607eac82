-- ===== src/LanVoice/Examples.antt =====
-- One transfer, its packets and its endings, on concrete states of `ActiveLanPlayback`.
use codex_keyboard_windows.Base.{
  ℕ, suc, ◌+◌, ◌<◌, ◌≡◌, ◌⊎◌, ◌++◌, refl, true, false, Option, none, some, List, [], ◌∷◌, length,
  replicate, min, arith, get_u32, ok, le_bytes, from_le, get_u16, get_u64, tag_difference, take,
  ◌*◌, map,
}
use codex_keyboard_windows.Crypto.Toy.{toy, toy-IsMac}
use codex_keyboard_windows.LanPlayback.{
  valid_identity, valid_slot, encode_identity, decode_identity, PlaybackBegin, PlaybackFinished,
}
use codex_keyboard_windows.LanPlayback.Auth.{sign, verify, verify_fixed}
use codex_keyboard_windows.LanPlayback.Control.{
  finished_packet, finished_fields, open_packet, ack_packet, ack_fields, begin_packet,
  request_fields, decode_ack, decode_request, encode_begin, encode_ack, encode_finished,
  decode_finished,
}
use codex_keyboard_windows.LanPlayback.Mailbox.{decode_mailbox_status}
use codex_keyboard_windows.LanPlayback.Payload.{
  data_context, data_nonce, data_packet, encode_data, derive_data_key,
}
use codex_keyboard_windows.LanPlayback.Examples.{
  key, identity, sample_request, sample_begin, sample_ack, sample_finished, sample_mailbox,
  sample_mailbox-IsMailbox, all_bytes_sound,
}
use codex_keyboard_windows.LanVoice.Playback.{
  World, ActiveLanPlayback, ActivePlaybackTransfer, PlaybackSendPhase, begin_ack, data_ack,
  device_finished, finished, cancelled, start, send_to,
}
use codex_keyboard_windows.LanVoice.Playback.Send.{send_chunks, send_next_data}
use codex_keyboard_windows.LanVoice.Playback.Ack.{
  accept_ack, accept_ack_of, accept_gap, accept_progress, accept_refusal, continue_transfer,
  cancel_transfer,
}
use codex_keyboard_windows.LanVoice.Playback.Ingest.{
  accept_request_generation, ingest_request, lookup_floor, ingest_finished_of, ingest_finished,
  ingest,
}
use codex_keyboard_windows.LanVoice.Playback.Tick.{
  tick, tick_transfer, retry_transfer, resend, expire_retired,
}
use codex_keyboard_windows.LanVoice.Playback.Command.{
  handle_command, start_transfer, new_transfer, commit_finished,
}
use codex_keyboard_windows.LanVoice.Playback.Heartbeat.{
  heartbeat_auth_context, heartbeat_malformed, heartbeat_difference, accepts_heartbeat,
  handle_heartbeat, invalid,
}
use codex_keyboard_windows.LanVoice.Playback.History.{
  Call, commands, receives, ticks, initial, step, run,
}
use codex_keyboard_windows.LanVoice.Playback.Bounds.{IsTransfer, IsPlayback, run-initial-IsPlayback}
use codex_keyboard_windows.LanVoice.Playback.Delivery.{Answered, accept_ack-Answered}
use codex_keyboard_windows.LanVoice.Playback.Endings.{Fate, step-Fate}
use codex_keyboard_windows.LanVoice.Playback.Finish.{finished_count, PlayedOut, ingest-PlayedOut}
use codex_keyboard_windows.LanVoice.Playback.Chunks.{IsWindow, send_next_data-IsWindow}
use codex_keyboard_windows.LanVoice.Playback.Replay.{accept_all, accept_request_generation_once}
use codex_keyboard_windows.LanVoice.Playback.Overdue.{AreBefore, IsReached, run-deadline}
use codex_keyboard_windows.LanVoice.Playback.Stuck.{run-unsent, ticks_every, ticks_every-gives_up}
use codex_keyboard_windows.LanVoice.Playback.Beacon.{
  IsHeartbeat, IsAnswer, handle_heartbeat-IsAnswer,
}

-- A socket that takes every datagram, and one that takes none.
abbrev net_up : ℕ → Option ℕ
net_up n = some 32

abbrev net_down : ℕ → Option ℕ
net_down n = none

abbrev world : World
world = record { calls = 0; sent = []; events = [] }

abbrev transfer_in : PlaybackSendPhase → ℕ → ℕ → ActivePlaybackTransfer
transfer_in phase acknowledged sent = record {
  begin = sample_begin;
  source = 7;
  eiad = 1 ∷ 2 ∷ 3 ∷ [];
  phase = phase;
  acknowledged_offset = acknowledged;
  sent_end_offset = sent;
  last_send = 0;
  retry_count = 0;
  finish_deadline = 500;
  started_at = 0;
}

abbrev playing : ActivePlaybackTransfer → ActiveLanPlayback
playing t = record {
  transfer = some t;
  retired_finish = none;
  retired_cancel = none;
  accepted_requests = [];
  mailbox_status = sample_mailbox;
}

abbrev begun : ActivePlaybackTransfer
begun = transfer_in begin_ack 0 0

abbrev sending : ActivePlaybackTransfer
sending = transfer_in data_ack 0 3

abbrev finishing : ActivePlaybackTransfer
finishing = transfer_in device_finished 3 3

sending-IsTransfer : IsTransfer sending
sending-IsTransfer = record {
  total = refl;
  nonempty = omega arith;
  ordered = omega arith;
  within = omega arith;
  window = omega arith;
  retries = omega arith;
  begun = λ e. cc;
  complete = λ e. cc;
}

finishing-IsTransfer : IsTransfer finishing
finishing-IsTransfer = record {
  total = refl;
  nonempty = omega arith;
  ordered = omega arith;
  within = omega arith;
  window = omega arith;
  retries = omega arith;
  begun = λ e. cc;
  complete = λ e. refl;
}

abbrev audio : List ℕ
audio = 1 ∷ 2 ∷ 3 ∷ 4 ∷ 5 ∷ []

abbrev five_begin : PlaybackBegin
five_begin = record sample_begin { total_bytes = 5 }

abbrev ack_at : ℕ → ℕ → List ℕ
ack_at status offset =
    encode_ack toy (record { identity = identity; status = status; next_offset = offset }) key

-- A transfer of five bytes: started, begun, repeated, acknowledged up to a gap, and waiting.
abbrev transfer_calls : List Call
transfer_calls =
    commands (start (record { begin = five_begin; source = 7; eiad = audio })) (some key) 0
    ∷ ticks (some key) 300
    ∷ receives (ack_at 0 0) 7 (some key) 350
    ∷ receives (ack_at 1 2) 7 (some key) 400
    ∷ ticks (some key) 700
    ∷ []

history_bounds_example : IsPlayback (run toy net_up initial world transfer_calls).0
history_bounds_example = run-initial-IsPlayback toy net_up world transfer_calls

ack_answer_example :
    Answered sending world (accept_ack toy net_up (playing sending) sample_ack 7 key 100 world)
ack_answer_example =
    accept_ack-Answered toy net_up (playing sending) sending sample_ack 7 key 100 world refl
      sending-IsTransfer

Fate-example :
    Fate sending world
      (ticks (some key) 300)
      (step toy net_up (playing sending) world (ticks (some key) 300))
Fate-example =
    step-Fate toy net_up world sending (playing sending) (ticks (some key) 300) refl
      sending-IsTransfer

request_once_example :
    (accept_request_generation
      (accept_all (accept_request_generation initial sample_request).0 [])
      sample_request).1
    ≡ false
unfolding accept_request_generation initial lookup_floor
request_once_example =
    accept_request_generation_once initial sample_request sample_request [] refl refl refl
      (omega arith)

abbrev times : List (Option (List ℕ) × ℕ)
times = (some key, 300) ∷ (some key, 600) ∷ (none, 850) ∷ (some key, 9000) ∷ []

unsent_example :
    ((run toy net_down (playing begun) world (map (λ at. ticks at.0 at.1) times)).0.transfer
      ≡ some begun)
    × ((run toy net_down (playing begun) world (map (λ at. ticks at.0 at.1) times)).1.sent ≡ [])
    × ((run toy net_down (playing begun) world (map (λ at. ticks at.0 at.1) times)).1.events ≡ [])
unsent_example =
    run-unsent toy net_down (playing begun) begun times world (λ n. refl) refl refl (omega arith)

deadline_example :
    (AreBefore 500 times
      × ((run toy net_up (playing finishing) world (map (λ at. ticks at.0 at.1) times)).0.transfer
          ≡ some finishing)
      × ((run toy net_up (playing finishing) world (map (λ at. ticks at.0 at.1) times)).1 ≡ world))
    ⊎ (IsReached 500 times
        × ((run toy net_up (playing finishing) world (map (λ at. ticks at.0 at.1) times)).0.transfer
            ≡ none)
        × ((run toy net_up (playing finishing) world (map (λ at. ticks at.0 at.1) times)).1
            ≡ record world { events = [] ++ (cancelled identity ∷ []) }))
deadline_example = run-deadline toy net_up (playing finishing) finishing times world refl refl

gives_up_example : (ticks_every toy net_up (suc 16) (playing begun) key 250 world).0.transfer ≡ none
gives_up_example =
    ticks_every-gives_up toy net_up 16 (playing begun) begun key 250 world (λ n. refl) refl refl
      (omega arith) refl

abbrev finished_packet_in : List ℕ
finished_packet_in = encode_finished toy sample_finished key

one_report :
    finished_count
      (ingest toy net_up (playing finishing) finished_packet_in 7 key 100 world).1.events
    ≡ 1
unfolding ingest ingest_finished ingest_finished_of finished_count encode_finished decode_finished
    sign finished_packet le_bytes verify_fixed verify finished_fields open_packet get_u32 get_u64
    from_le valid_identity decode_identity
one_report = refl

reported :
    finished_count []
    < finished_count
        (ingest toy net_up (playing finishing) finished_packet_in 7 key 100 world).1.events
unfolding finished_count
reported = omega (arith, one_report)

PlayedOut-example :
    (f : PlaybackFinished) × (decode_finished toy finished_packet_in key ≡ ok f)
    × PlayedOut (playing finishing) f 7
    × ((ingest toy net_up (playing finishing) finished_packet_in 7 key 100 world).1.events
        ≡ [] ++ (finished f ∷ []))
PlayedOut-example =
    ingest-PlayedOut toy net_up (playing finishing) finished_packet_in 7 key 100 world
      (record { transfer_valid = finishing-IsTransfer }) reported

window_example :
    let (t', w', sent) = send_next_data toy net_up begun key 100 world in
    (t'.sent_end_offset ≡ min (0 + 6 * 1024) (length begun.eiad))
    × IsWindow toy begun key 0 t'.sent_end_offset world w'
unfolding send_next_data send_chunks encode_data valid_identity derive_data_key send_to
window_example = send_next_data-IsWindow toy net_up begun key 100 world (omega arith) refl

abbrev heartbeat_body : List ℕ
heartbeat_body =
    b'E' ∷ b'I' ∷ b'H' ∷ b'B' ∷ 1 ∷ 2 ∷ 0 ∷ 0 ∷ replicate 8 0
    ++ (le_bytes 4 6 ++ (b'E' ∷ b'I' ∷ b'S' ∷ b'D' ∷ 1 ∷ 60 ∷ 2 ∷ 0 ∷ replicate 36 0))

abbrev heartbeat : List ℕ
heartbeat = heartbeat_body ++ take 16 (toy.hmac key (heartbeat_auth_context ++ heartbeat_body))

heartbeat_accepted : accepts_heartbeat toy heartbeat key ≡ true
unfolding accepts_heartbeat heartbeat_malformed heartbeat_difference tag_difference le_bytes get_u16
    from_le
heartbeat_accepted = refl

heartbeat_example :
    ((¬ IsHeartbeat toy heartbeat key)
      × (handle_heartbeat toy net_up (playing begun) heartbeat 7 key world ≡ (world, invalid)))
    ⊎ (IsHeartbeat toy heartbeat key
        × ((response : List ℕ) × (decode_mailbox_status toy response key
              ≡ ok (sample_mailbox, get_u32 heartbeat 16))
            × IsAnswer net_up world 7 response
                (handle_heartbeat toy net_up (playing begun) heartbeat 7 key world)))
unfolding le_bytes
heartbeat_example =
    handle_heartbeat-IsAnswer toy toy-IsMac net_up (playing begun) heartbeat 7 key world
      (all_bytes_sound heartbeat refl) (omega arith) refl sample_mailbox-IsMailbox

abbrev offsets : Option ActivePlaybackTransfer → Option (ℕ × ℕ × ℕ)
offsets none = none
offsets (some t) = some (t.acknowledged_offset, t.sent_end_offset, t.retry_count)

-- Where the transfer stands after those calls: two of five bytes acknowledged, all sent, one attempt.
transfer_test : offsets (run toy net_up initial world transfer_calls).0.transfer ≡ some (2, 5, 1)
unfolding run step initial tick ingest encode_ack sign ack_packet le_bytes decode_ack verify_fixed
    valid_identity ack_fields decode_identity get_u32 from_le get_u64 accept_ack handle_command
    send_to verify begin_packet decode_finished decode_request encode_begin finished_fields
    open_packet request_fields data_context data_nonce data_packet derive_data_key encode_data
    encode_identity valid_slot accept_ack_of accept_gap accept_progress continue_transfer
    new_transfer start_transfer send_next_data send_chunks retry_transfer resend tick_transfer
    expire_retired get_u16 finished_packet ingest_finished ingest_request accept_request_generation
    accept_refusal ingest_finished_of commit_finished cancel_transfer
transfer_test = refl
