-- ===== src/Emission/Tests.antt =====
-- The two photons of the burst of Engine/Bursts/Tests, from memories that are not busy.
use quisp.Prelude.{ℤ, pos, true, false, List, [], ◌∷◌, ok, none, ◌≡◌, refl, arith}
use quisp.Qubits.{World}
use quisp.Qubits.Tests.{memory}
use quisp.Analyzer.{Photon}
use quisp.Engine.Bursts.{Station, EmitPhotonRequest}
use quisp.Engine.Bursts.Shooting.{run_burst, kinds_of}
use quisp.Engine.Bursts.Tests.{station, schedule, station-HasFree}
use quisp.Emission.Marks.{photons, firsts, lasts, run_burst-photons}

abbrev world : World
world = record {
  qubits = λ i. record (memory i none false 0) { is_busy = false };
  now = pos 100;
  rand = λ n. 4;
  drawn = 0;
}

run_burst-photons_example :
    (es : List (ℤ × EmitPhotonRequest)) × (s' : Station) × (ps : List Photon) × (run_burst 9
        schedule
        (pos 100)
        (station false [])
      ≡ ok (es, s'))
    × (photons (λ i. i) (λ i. world) 3 0 (kinds_of es) ≡ ok ps)
    × (firsts ps ≡ true ∷ false ∷ [])
    × (lasts ps ≡ false ∷ true ∷ [])
run_burst-photons_example =
    run_burst-photons 9 1 schedule (pos 100) (station false []) (λ i. i) (λ i. world) 3 refl
      station-HasFree (omega arith) (λ j. refl)
