-- ===== src/PairSource/Tests.antt =====
-- A source that waits 5 and emits every 3.
use quisp.Prelude.{pos, [], ◌∷◌, ◌≡◌, refl}
use quisp.PairSource.{
  PairSource, generate_packet, emit_photon_request, schedule_photon_transmissions, emit_photons,
  send_notifier, schedule_at, pair_notifier, handle_pump,
}

abbrev source : PairSource
source = record {
  address = pos 1;
  neighbor_address = pos 2;
  neighbor_address_two = pos 3;
  timing_buffer = 5;
  max_buffer = pos 10;
  max_accepted_rate = 3;
}

started :
    handle_pump source 100 generate_packet
    ≡ send_notifier (pair_notifier source (pos 2))
      ∷ send_notifier (pair_notifier source (pos 3))
      ∷ schedule_at 108 emit_photon_request
      ∷ []
unfolding handle_pump
started = refl

emitted :
    handle_pump source 108 emit_photon_request
    ≡ emit_photons ∷ schedule_at 111 schedule_photon_transmissions ∷ []
unfolding handle_pump
emitted = refl
