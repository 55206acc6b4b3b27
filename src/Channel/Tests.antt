-- ===== src/Channel/Tests.antt =====
-- A photon with an X error on a channel without noise.
use quisp.Prelude.{false, ◌&&◌, ◌≡◌, refl}
use quisp.Analyzer.{Photon}
use quisp.Analyzer.Tests.{photon}
use quisp.Channel.{process_message}
use quisp.Channel.Ideal.{identity, flagged, process_message-identity}

abbrev noisy : Photon
noisy = photon 3 false false false

process_message-identity_example :
    process_message (identity 100) 40 noisy
    ≡ flagged
        (noisy.photon_lost && noisy.pauli_x_err)
        (noisy.photon_lost && noisy.pauli_z_err)
        noisy.photon_lost
        noisy
process_message-identity_example = process_message-identity 100 40 noisy refl
