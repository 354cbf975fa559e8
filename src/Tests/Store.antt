-- ===== src/Tests/Store.antt =====
-- The queue of failed tiles on concrete inputs.
use data_service.Common.{◌≡◌, refl, [], ◌∷◌}
use data_service.StateStore.{FailedTile, BasemapStateStore, empty_store, add_failed}

abbrev queued : BasemapStateStore
queued = record empty_store {
  failed =
      record { provider_id = "osm"; zoom = 3; x = 2; y = 4 }
      ∷ record { provider_id = "ign"; zoom = 3; x = 2; y = 4 }
      ∷ record { provider_id = "osm"; zoom = 4; x = 1; y = 1 }
      ∷ [];
}

twice_added : (add_failed "osm" 3 2 4 queued).failed ≡ queued.failed
unfolding add_failed
twice_added = refl

abbrev here : FailedTile
here = record { provider_id = "osm"; zoom = 3; x = 2; y = 4 }
