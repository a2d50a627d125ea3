-- ===== src/NetworkTx/Tests.antt =====
-- Runs of src/network_tx.c, and its theorems at those inputs.
use mathlib.Core.Option.{Option}
use flex1500d.Base.{◌≡◌, ◌≢◌, ◌⊎◌, ◌+◌, ◌≤◌, ◌<◌, refl, Bool, true, false, arith}
use flex1500d.Base.Ints.{ℤ, pos}
use flex1500d.TxControl
use flex1500d.TxControl.{TxControl, TxOwner}
use flex1500d.NetworkTx.{
  NetworkTx, NetworkTxProfile, usb, audio, iq, ok, expired, hardware_error, lease_ms,
  min_prebuffer_frames, valid_profile, owns, clear_session, acquire, keepalive, attach_stream,
  record_data, ptt_start, key, ptt_stop, release, disconnect_stream, tick, reconcile,
}
use flex1500d.NetworkTx.Link.{
  IsLinked, session_operations-IsLinked, ptt_start_ready, ends_unkeyed, reconcile_agrees,
}

abbrev start_radio : Bool → TxOwner → ℤ × Bool
start_radio on o = (pos 0, true)

abbrev stop_radio : Bool → TxOwner → Bool → ℤ × Bool
stop_radio on o graceful = (pos 0, false)

abbrev voice : NetworkTxProfile
voice = record { mode = usb; source = audio; drive_percent = 50; sample_rate = 48000 }

abbrev free_tx : TxControl Bool
free_tx = record {
  enabled = true;
  physical_ptt_armed = true;
  physical_ptt_pressed = false;
  cleanup_failed = false;
  owner = TxOwner.none;
  state = TxControl.rx;
  started_ms = 0;
  maximum_key_ms = 180000;
  callback_context = false;
  start_callback = Option.some start_radio;
  stop_callback = Option.some stop_radio;
}

-- Lease 5 has a stream and a full prebuffer, and has not keyed.
abbrev prebuffered : NetworkTx
prebuffered = record {
  enabled = true;
  reserved = true;
  stream_connected = true;
  keyed = false;
  lease = 5;
  renewed_ms = 1000;
  last_data_ms = 1500;
  buffered_frames = 4096;
  profile = voice;
  tx_control = true;
}

-- I/Q samples do not go with a voice mode.
profile_mismatch : valid_profile (record voice { source = iq }) ≡ false
unfolding valid_profile
profile_mismatch = refl

prebuffered-IsLinked : IsLinked prebuffered free_tx
unfolding valid_profile
prebuffered-IsLinked = ground arith

session_operations-IsLinked_example :
    IsLinked (acquire prebuffered free_tx voice 5 2000).1 free_tx
    × IsLinked (keepalive prebuffered 5 2000).1 free_tx
    × IsLinked (attach_stream prebuffered 5 2000).1 free_tx
    × IsLinked (record_data prebuffered 5 480 2000).1 free_tx
    × IsLinked (ptt_start prebuffered free_tx 5 2000).1 (ptt_start prebuffered free_tx 5 2000).2
    × IsLinked (ptt_stop prebuffered free_tx 5).1 (ptt_stop prebuffered free_tx 5).2
    × IsLinked (release prebuffered free_tx 5).1 (release prebuffered free_tx 5).2
    × IsLinked (disconnect_stream prebuffered free_tx).1 (disconnect_stream prebuffered free_tx).2
    × IsLinked (tick prebuffered free_tx 2000).1 (tick prebuffered free_tx 2000).2
    × IsLinked (reconcile prebuffered free_tx) free_tx
session_operations-IsLinked_example =
    session_operations-IsLinked prebuffered free_tx voice 5 480 2000 prebuffered-IsLinked

ptt_start_ready_example :
    (true ≡ true)
    × (prebuffered.lease ≡ prebuffered.lease)
    × (prebuffered.lease ≢ 0)
    × (true ≡ true)
    × (prebuffered.buffered_frames ≡ min_prebuffer_frames)
    × ((ptt_start prebuffered free_tx 5 2000).1.keyed ≡ true)
    × ((ptt_start prebuffered free_tx 5 2000).2.owner ≡ TxOwner.http)
unfolding ptt_start key owns TxControl.request TxControl.key TxControl.call_start
    TxControl.call_stop TxControl.valid_owner
ptt_start_ready_example = ptt_start_ready prebuffered free_tx 5 2000 prebuffered-IsLinked refl refl

ends_unkeyed_example :
    ((release prebuffered free_tx 5).2.owner ≢ TxOwner.http)
    × ((release prebuffered free_tx 5).1 ≡ clear_session prebuffered)
    × ((disconnect_stream prebuffered free_tx).2.owner ≢ TxOwner.http)
    × ((disconnect_stream prebuffered free_tx).1.keyed ≡ false)
    × (((1000 + lease_ms ≤ 16000)
          × ((tick prebuffered free_tx 16000).2.owner ≢ TxOwner.http)
          × ((tick prebuffered free_tx 16000).1 ≡ clear_session prebuffered)
          × (((tick prebuffered free_tx 16000).0 ≡ expired)
              ⊎ ((tick prebuffered free_tx 16000).0 ≡ hardware_error)))
        ⊎ ((16000 < 1000 + lease_ms)
            × (tick prebuffered free_tx 16000 ≡ (ok, prebuffered, free_tx))))
ends_unkeyed_example =
    ends_unkeyed prebuffered free_tx 16000 prebuffered-IsLinked refl (omega arith) (omega arith)

reconcile_agrees_example :
    ((reconcile prebuffered free_tx).keyed ≡ true → free_tx.owner ≡ TxOwner.http)
    × (free_tx.owner ≡ TxOwner.http → (reconcile prebuffered free_tx).keyed ≡ true)
reconcile_agrees_example = reconcile_agrees prebuffered free_tx prebuffered-IsLinked
