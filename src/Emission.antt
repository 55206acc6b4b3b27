-- ===== src/Emission.antt =====
-- quisp/modules/stationaryQubit.cc: the emission of a photon by a memory, from the request to the
-- time when it leaves. The delay of the photon, which is normally distributed, and its kind, which
-- only the display reads, are left out.
pub mod Marks
mod Tests
use quisp.Prelude.{
  ℕ, zero, suc, ◌+◌, ◌%◌, ◌/◌, ℤ, pos, ◌==◌, ltb, Bool, true, false, if◌then◌else◌, Result, ok, err,
  ◌>>=◌, ◌>>◌, fail_if, already_busy,
}
use quisp.Network.{QnicType, qnic_e, qnic_r, qnic_rp, qnic_n}
use quisp.Qubits.{Qubit, World, update, draw}
use quisp.Analyzer.{Photon}

-- `pulse & STATIONARYQUBIT_PULSE_BEGIN` and `pulse & STATIONARYQUBIT_PULSE_END`
abbrev pub begins : (pulse : ℕ) → Bool
begins pulse = pulse % 2 == 1

abbrev pub ends : (pulse : ℕ) → Bool
ends pulse = (pulse / 2) % 2 == 1

-- The number of a QNIC_type.
abbrev pub number_of : QnicType → ℤ
number_of qnic_e = pos 0
number_of qnic_r = pos 1
number_of qnic_rp = pos 2
number_of qnic_n = pos 3

-- generateEntangledPhoton
unfoldable pub generate_entangled_photon : ℕ → World → Photon
generate_entangled_photon i w =
    let q = w.qubits i in
    record {
      node_entangled_with = q.node_address;
      qnic_entangled_with = q.qnic_address;
      stationary_qubit_entangled_with = q.stationary_qubit_address;
      qnic_type_entangled_with = number_of q.qnic_type;
      entangled_with = i;
      pauli_x_err = false;
      pauli_z_err = false;
      photon_lost = false;
      first = false;
      last = false;
    }

abbrev pub marked : (pulse : ℕ) → Photon → Photon
marked pulse pk = record pk {
  first = if begins pulse then true else pk.first;
  last = if ends pulse then true else pk.last;
}

-- emitPhoton: the photon that is scheduled.
unfoldable pub emit_photon : (pulse : ℕ) → ℕ → World → Result Photon
unfolding generate_entangled_photon
emit_photon pulse i w = do
  fail_if (w.qubits i).is_busy already_busy
  ok (marked pulse (generate_entangled_photon i w))

-- setBusy
abbrev pub set_busy : ℕ → World → World
set_busy i w = update i (λ q. record q { is_busy = true; updated_time = w.now }) w

-- handleMessage, when the photon leaves; `failure` is 1 - emission_success_probability.
unfoldable pub leave : (failure : ℕ) → Photon → ℕ → World → Photon × World
leave failure pk i w =
    let (rand, w') = draw (set_busy i w) in
    (if ltb rand failure then record pk { photon_lost = true } else pk, w')
