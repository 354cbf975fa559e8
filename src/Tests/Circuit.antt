-- ===== src/Tests/Circuit.antt =====
-- The storage circuit on concrete inputs.
use data_service.Common.{◌≡◌, refl, ◌↔◌, ◌≤◌, true, [], ◌∷◌, map, ◌+◌, arith}
use data_service.StorageCircuit.{
  CircuitConfig, StorageCircuit, new_circuit, is_open, record_success, record_failure, exhausted,
  observe, fail_counted, should_open, trip,
}
use data_service.StorageCircuit.Valid.{IsConfig, IsValid, new_circuit-IsValid}
use data_service.StorageCircuit.Reports.{success, failure, report, run, run-IsValid, StaysClosed}
use data_service.StorageCircuit.Backoff.{failed_probes, waited, failed_probes-exhausted}
use data_service.StorageCircuit.Outage.{outage_opens}

-- two of three failures open it; 30 ticks at first, 100 at most; it gives up after four probes
abbrev settings : CircuitConfig
settings = record {
  name = "S3";
  window = 4;
  min_samples = 3;
  threshold = record { num = 1; den = 2 };
  base_cooldown = 30;
  max_cooldown = 100;
  max_consecutive_trips = 4;
}

settings-IsConfig : IsConfig settings
settings-IsConfig = record {
  base_pos = ground arith;
  base-le-max = ground arith;
  samples_pos = ground arith;
  samples-le-window = ground arith;
}

abbrev closed : StorageCircuit
closed = new_circuit settings

-- as `_open` leaves it at the time 7
abbrev opened : StorageCircuit
opened = record closed { open_until = 37; opened_at = 7 }

two_failures_of_three : is_open (run closed (failure 1 ∷ success 2 ∷ failure 3 ∷ [])) ≡ true
unfolding run report record_failure record_success is_open fail_counted should_open observe trip
two_failures_of_three = refl

run-IsValid_example : IsValid (run closed (failure 1 ∷ failure 2 ∷ failure 3 ∷ success 40 ∷ []))
run-IsValid_example =
    run-IsValid (failure 1 ∷ failure 2 ∷ failure 3 ∷ success 40 ∷ []) closed settings-IsConfig
      (new_circuit-IsValid settings settings-IsConfig)

mixed-StaysClosed : StaysClosed closed (success 1 ∷ failure 2 ∷ success 3 ∷ [])
unfolding StaysClosed report record_success record_failure is_open fail_counted should_open observe
mixed-StaysClosed = (refl, (refl, (refl, refl)))

outage_opens_example : is_open (run closed (map failure (1 ∷ 2 ∷ 3 ∷ 4 ∷ []))) ≡ true
outage_opens_example =
    outage_opens closed (1 ∷ 2 ∷ 3 ∷ 4 ∷ []) settings-IsConfig
      (new_circuit-IsValid settings settings-IsConfig) (ground arith) (ground arith)

failed_probes-exhausted_example :
    (is_open (failed_probes 4 opened) ≡ true)
    × ((failed_probes 4 opened).open_until ≡ 7 + waited settings 4)
    × ((exhausted (failed_probes 4 opened) ≡ true) ↔ (4 ≤ 4))
failed_probes-exhausted_example = failed_probes-exhausted 4 opened settings-IsConfig refl refl refl
