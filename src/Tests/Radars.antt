-- ===== src/Tests/Radars.antt =====
-- The radar index after two additions and a trim.
use data_service.Common.{
  ℕ, ◌≤◌, ◌≡◌, true, false, List, [], ◌∷◌, none, arith, Bool-cases, leb, inl, inr,
}
use data_service.Common.Text.{Text, codes}
use data_service.Mirror.{KeySet}
use data_service.Radar.{RadarRedis}
use data_service.Radar.Navigation.{
  IndexCall, adding, trimming, IsNavigable, Lists, Shows, run_calls, run_calls-IsNavigable,
}

abbrev no_keys : KeySet
no_keys = record { members = []; expires = 0 }

abbrev empty : RadarRedis
empty = record {
  radars = no_keys;
  variables = λ r. no_keys;
  elevations = λ r v. no_keys;
  tilesets = λ r v e. record { members = []; expires = 0 };
  tiles = λ r v e id zxy. none;
}

empty-Shows : (t : ℕ) (r v e : Text) → 0 ≤ t → Lists t (empty.tilesets r v e) → Shows t empty r v e
empty-Shows t r v e late (id, listed) = elim (Bool-cases (leb 0 t)) [
  | inl gone ↦ let bad : false ≡ true = (rw gone at listed) in absurd cc
  | inr live ↦ let bad : false ≡ true = (rw live at listed) in absurd cc
]

empty-IsNavigable : IsNavigable 60 0 empty
empty-IsNavigable = (empty-Shows, omega arith, λ r. omega arith, λ r v. omega arith)

abbrev calls : List IndexCall
calls =
    adding (codes "RMA1") (codes "DBZH") (codes "elev0") (codes "20") 100 101
    ∷ trimming (codes "RMA1") (codes "DBZH") (codes "elev0") 40
    ∷ adding (codes "RMA2") (codes "VRAD") (codes "elev1") (codes "21") 105 106
    ∷ []

run_calls-IsNavigable_example : IsNavigable 60 106 (run_calls 60 calls empty)
run_calls-IsNavigable_example =
    run_calls-IsNavigable 60 0 calls empty (omega arith, (omega arith, tt)) empty-IsNavigable
