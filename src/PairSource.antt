-- ===== src/PairSource.antt =====
-- quisp/modules/SPDC_Controller.cc: the controller of a source of entangled photon pairs. It tells both
-- neighbours when the photons come, and then lets the source emit a pair after another. What it reads
-- from the module tree at the start is fields, and times are natural numbers in a common unit. The
-- emission itself is an output.
mod Tests
use quisp.Prelude.{ℕ, ◌+◌, ℤ, List, [], ◌∷◌}

pub record PairSource : Type 0 where
  pub address : ℤ
  pub neighbor_address : ℤ
  pub neighbor_address_two : ℤ
  pub timing_buffer : ℕ
  pub max_buffer : ℤ
  pub max_accepted_rate : ℕ

-- EPPStimingNotifier
pub record PairNotifier : Type 0 where
  pub src_addr : ℤ
  pub dest_addr : ℤ
  pub kind : ℕ
  pub timing_at : ℕ
  pub interval : ℕ
  pub number_of_qubits : ℤ

-- The messages to the controller, all from itself.
pub data PumpMessage : Type 0 where
  generate_packet emit_photon_request schedule_photon_transmissions : PumpMessage

-- What a handler does: packets to the router, an emission, and an event at a time.
pub data PumpAction : Type 0 where
  send_notifier : PairNotifier → PumpAction
  emit_photons : PumpAction
  schedule_at : (time : ℕ) → PumpMessage → PumpAction

-- generateNotifier, in which the distance has no part.
unfoldable pub pair_notifier : PairSource → (dest_addr : ℤ) → PairNotifier
pair_notifier c dest_addr = record {
  src_addr = c.address;
  dest_addr = dest_addr;
  kind = 4;
  timing_at = c.timing_buffer;
  interval = c.max_accepted_rate;
  number_of_qubits = c.max_buffer;
}

-- startPump
abbrev pub start_pump : PairSource → (now : ℕ) → PumpAction
start_pump c now = schedule_at (now + c.timing_buffer + c.max_accepted_rate) emit_photon_request

-- handleMessage. The start message is never scheduled: the lines of initialize that would do so are
-- commented out.
unfoldable pub handle_pump : PairSource → (now : ℕ) → PumpMessage → List PumpAction
unfolding pair_notifier
handle_pump c now generate_packet =
    send_notifier (pair_notifier c c.neighbor_address)
    ∷ send_notifier (pair_notifier c c.neighbor_address_two)
    ∷ start_pump c now
    ∷ []
handle_pump c now emit_photon_request =
    emit_photons ∷ schedule_at (now + c.max_accepted_rate) schedule_photon_transmissions ∷ []
handle_pump c now schedule_photon_transmissions =
    emit_photons ∷ schedule_at (now + c.max_accepted_rate) schedule_photon_transmissions ∷ []
