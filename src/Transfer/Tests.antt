-- ===== src/Transfer/Tests.antt =====
-- Uploads to the devices of the mock's test network.
use pax.Prelude.{ℕ, ◌≡◌, none, List, [], ◌∷◌, ◌⊎◌}
use pax.Transport.Error.{TransportError, Result, ok, err}
use pax.Transport.Pairing.{PairingAgent}
use pax.Transport.Transfer.{TransferReceipt}
use pax.Transport.Backend.{Backend, Connection}
use pax.Transport.Retry.{Ending}
use pax.Transport.Mock.{MockBackend, build}
use pax.Transport.Mock.Instance.{mock_backend}
use pax.Transport.Mock.Tests.{
  network, sensor, sensor_id, speaker_id, unchanged, photo, link, linked,
}
use pax.Transfer.Upload.{
  default_options, max_attempts, is_transient, push_with_retries, hang_up, upload_files,
}
use pax.Transfer.Upload.Runs.{push_with_retries-Ending, BatchEnds, upload_files-BatchEnds}

abbrev World : Type 0
World = MockBackend × Unit {0}

abbrev mock : Backend World (PairingAgent (Unit {0}))
mock = mock_backend unchanged

push_with_retries-Ending_example :
    (k : ℕ) × Ending
      (mock.push_file (link sensor sensor_id) photo)
      is_transient
      (max_attempts 1)
      none
      (linked sensor_id, tt)
      (push_with_retries mock (link sensor sensor_id) photo 1 (linked sensor_id, tt)).0
      k
      (push_with_retries mock (link sensor sensor_id) photo 1 (linked sensor_id, tt)).1
push_with_retries-Ending_example =
    push_with_retries-Ending mock (link sensor sensor_id) photo 1 (linked sensor_id, tt)

upload_files-BatchEnds_example :
    ((e : TransportError) × (s' : World) × (mock.connect speaker_id (build network, tt)
        ≡ (err e, s'))
      × (upload_files mock speaker_id (photo ∷ photo ∷ []) default_options (build network, tt)
          ≡ (err e, s')))
    ⊎ ((conn : Connection) × (s1 : World) × (r : Result (List TransferReceipt)) × (s2 : World)
        × (mock.connect speaker_id (build network, tt) ≡ (ok conn, s1))
        × BatchEnds mock conn 1 (photo ∷ photo ∷ []) [] s1 (r, s2)
        × (upload_files mock speaker_id (photo ∷ photo ∷ []) default_options (build network, tt)
            ≡ (r, hang_up mock default_options.disconnect_after conn s2)))
upload_files-BatchEnds_example =
    upload_files-BatchEnds mock speaker_id (photo ∷ photo ∷ []) default_options (build network, tt)
