-- ===== src/Engine/Bursts/Tests.antt =====
-- A qnic with two qubits of which both are free, and another one. Both photons are sent; the first
-- attempt succeeds and the second fails.
use quisp.Prelude.{
  ℕ, zero, suc, ℤ, pos, Bool, true, false, List, [], ◌∷◌, map, Option, none, some, Result, ok, ◌≡◌,
  refl, arith,
}
use quisp.Network.{qnic_e}
use quisp.Qubits.{Qubit}
use quisp.Qubits.Tests.{memory}
use quisp.Slots.{QubitState, QubitStateTable, count_free_qubits_in_qnic}
use quisp.Engine.Bursts.{
  Station, Schedule, EmitPhotonRequest, QubitAddr, table_of, burst_trial_outdated, sort_burst,
}
use quisp.Engine.Bursts.Shooting.{run_burst, HasFree, kinds_of, times_of, run_burst-all}
use quisp.Engine.Bursts.Shots.{numbered}

abbrev index_of_address : ℤ → Option ℕ
index_of_address (pos n) = some n
index_of_address _ = none

-- Qubit 0 is entangled with qubit 7 of another node.
abbrev qubits : ℕ → Qubit
qubits zero = memory 0 (some 7) false 0
qubits (suc zero) = memory 1 none false 0
qubits (suc (suc i)) = memory i (some 0) false 0

abbrev table : (busy : Bool) → QubitStateTable
table busy =
    record { qnic_index = pos 0; qubit_index = pos 0; is_busy = busy }
    ∷ record { qnic_index = pos 0; qubit_index = pos 1; is_busy = busy }
    ∷ record { qnic_index = pos 1; qubit_index = pos 0; is_busy = false }
    ∷ []

abbrev pub station : (busy : Bool) → List (ℤ × QubitAddr) → Station
station busy shots = record {
  engine = record {
    parent_address = pos 1;
    world = record { qubits = qubits; now = pos 0; rand = λ n. 0; drawn = 0 };
    busy_or_free = λ t. table busy;
    all_resources = λ t i. [];
    stat_qubit = λ t i a. index_of_address a;
  };
  ntable = [];
  neighbor_table = [];
  unset_interface = record {
    qnic = record { type = qnic_e; index = pos 0; address = pos 0 };
    neighbor_qnode_address = pos 0;
    link_cost = pos 0;
  };
  tracker = λ a. shots;
  qnic_burst_trial_counter = λ a. pos 4;
  terminated_qnic = λ a. false;
}

abbrev pub schedule : Schedule
schedule = record {
  qnic_index = pos 0;
  qnic_address = pos 0;
  interval = pos 3;
  timing = pos 20;
  num_sent = pos 0;
  internal_hom = false;
  trial = pos 4;
}

abbrev requests : Result (List (ℤ × EmitPhotonRequest) × Station) → List (ℤ × EmitPhotonRequest)
requests (ok r) = r.0
requests _ = []

two_photons :
    times_of (requests (run_burst 9 schedule (pos 100) (station false []))) ≡ pos 120 ∷ pos 123 ∷ []
unfolding run_burst
two_photons = refl

pub station-HasFree : HasFree schedule (station false []) 2
unfolding burst_trial_outdated count_free_qubits_in_qnic
station-HasFree = record {
  distinct = ((refl, (refl, tt)), ((refl, tt), (tt, tt)));
  indexed = (refl, (refl, (refl, tt)));
  free = refl;
  current = refl;
}

run_burst-all_example :
    (es : List (ℤ × EmitPhotonRequest)) × (s' : Station) × (run_burst 9 schedule
        (pos 100)
        (station false [])
      ≡ ok (es, s'))
    × (kinds_of es ≡ 1 ∷ 2 ∷ [])
    × (times_of es ≡ pos 120 ∷ pos 123 ∷ [])
    × (count_free_qubits_in_qnic (table_of qnic_e s') (pos 0) ≡ 0)
run_burst-all_example =
    run_burst-all 9 2 0 schedule (pos 100) (station false []) refl station-HasFree (omega arith)

abbrev shot : ℕ → QubitAddr
shot i = record { qnic_index = pos 0; qubit_index = pos i }

abbrev shots : List QubitAddr
shots = shot 0 ∷ shot 1 ∷ []

abbrev sorted : Station
unfolding sort_burst
sorted = station_of (
    sort_burst qnic_e (pos 0) (pos 0) (pos 2) (false ∷ true ∷ []) (station true (numbered 0 shots)))
  where
    station_of : Result Station → Station
    station_of (ok s) = s
    station_of _ = station true (numbered 0 shots)

sorted_resources : sorted.engine.all_resources qnic_e (pos 0) ≡ (pos 2, 0) ∷ []
unfolding sorted sort_burst
sorted_resources = refl

-- The entries of the table, of which only the second is freed.
sorted_table :
    map (λ (e : QubitState). e.is_busy) (sorted.engine.busy_or_free qnic_e)
    ≡ true ∷ false ∷ false ∷ []
unfolding sorted sort_burst
sorted_table = refl
