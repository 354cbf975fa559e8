-- ===== src/Tests/Overlays.antt =====
-- Two cycles over a WRF step with two layers, of which one cannot be read in the first.
use data_service.Common.{◌≡◌, refl, true, none, some, List, [], ◌∷◌, arith, if◌then◌else◌}
use data_service.Common.Text.{Text, codes, eq_text, has_text}
use data_service.Mirror.{read_set}
use data_service.Wrf.{WrfStep, OverlaysIo, copy_layers, sync_wrf_overlays}
use data_service.Wrf.Overlays.{overlay_lost}

abbrev empty : WrfStep
empty = record {
  layers = record { members = []; expires = 0 };
  overlays = λ l. none;
  done_until = 0;
}

abbrev layers : List Text
layers = codes "barbs" ∷ codes "isobars" ∷ []

-- the isobars cannot be read
abbrev first : OverlaysIo
first = record {
  checked_at = 100;
  s3_layers = some layers;
  read_at = 100;
  marked_at = 100;
  added_at = 101;
  layer = λ l. record {
    content = if eq_text l (codes "barbs") then some (codes "{}") else none;
    redis_ok = true;
    at = 102;
  };
}

-- all can be read
abbrev second : OverlaysIo
second = record {
  checked_at = 130;
  s3_layers = some layers;
  read_at = 130;
  marked_at = 131;
  added_at = 131;
  layer = λ l. record { content = some (codes "{}"); redis_ok = true; at = 132 };
}

overlay_lost_example :
    ((sync_wrf_overlays 600 60 second (sync_wrf_overlays 600 60 first empty)).overlays
        (codes "isobars")
      ≡ none)
    × ((sync_wrf_overlays 600 60 second (sync_wrf_overlays 600 60 first empty)).done_until ≡ 731)
    × (has_text (codes "isobars") (
          read_set 130
            (sync_wrf_overlays 600 60 second (sync_wrf_overlays 600 60 first empty)).layers)
        ≡ true)
overlay_lost_example =
    overlay_lost 600 60 empty (codes "barbs") (codes "barbs") (codes "isobars")
      (codes "isobars" ∷ []) (codes "isobars" ∷ []) first second (omega arith) (omega arith) refl
      refl refl refl refl (omega arith) (omega arith) (omega arith)

-- the barbs were copied
barbs_copied :
    (sync_wrf_overlays 600 60 first empty).overlays (codes "barbs")
    ≡ some (record { content = codes "{}"; expires = 702 })
unfolding sync_wrf_overlays copy_layers
barbs_copied = refl
