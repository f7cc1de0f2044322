-- ===== src/Central/CoordinatorService/Heartbeats.antt =====
-- Which coordinators a stream of heartbeats keeps alive.
use elan.Common.{
  ℕ, ◌+◌, ◌≡◌, refl, ap, ◌∙◌, [], ◌∷◌, List, Bool, true, ◌&&◌, ◌||◌, Text, map, any, contains,
  Result, ok, err, arith, text_eq, text_eq_iff,
}
use elan.Domain.Errors.{Status}
use elan.Central.CatalogStore
use elan.Central.CatalogStore.{CoordinatorRow, CatalogStore, update, is_coordinator, is_live}
use elan.Central.CoordinatorService.{heartbeat}

-- The messages before the first error.
abbrev pub heard : List (Result Status Text) → List Text
heard [] = []
heard (err e ∷ stream) = []
heard (ok id ∷ stream) = id ∷ heard stream

abbrev pub is_registered : Text → List CoordinatorRow → Bool
is_registered id cs = any (is_coordinator id) cs

abbrev pub seen : ℕ → CoordinatorRow → CoordinatorRow
seen now c = record c { last_heartbeat_at = now; is_alive = true }

module _ (now : ℕ) (sender id : Text) where
  pub is_registered-seen :
      (cs : List CoordinatorRow)
      → is_registered id (update (is_coordinator sender) (seen now) cs) ≡ is_registered id cs
  is_registered-seen [] = refl
  is_registered-seen (c ∷ cs) = ground (arith, is_registered-seen cs)

  is_live-seen :
      (cs : List CoordinatorRow)
      → is_live (update (is_coordinator sender) (seen now) cs) id
        ≡ (is_live cs id || (text_eq sender id && is_registered id cs))
  is_live-seen [] = ground arith
  is_live-seen (c ∷ cs) =
      ground (
        arith,
        is_live-seen cs,
        text_eq_iff c.id sender,
        text_eq_iff c.id id,
        text_eq_iff sender id,
      )

-- Every message before the first error is answered alive, from whatever sender. Afterwards a
-- coordinator is alive exactly if it was alive before, or is registered and sent one of them.
pub heartbeat-is_live :
    (now : ℕ → ℕ) (n : ℕ) (stream : List (Result Status Text)) (s : CatalogStore) (id : Text)
    → ((heartbeat now n stream s).0 ≡ map (λ sender. true) (heard stream))
      × (is_live (heartbeat now n stream s).1.coordinators id ≡ (
          is_live s.coordinators id
          || (contains (heard stream) id && is_registered id s.coordinators)))
unfolding heartbeat CatalogStore.heartbeat
heartbeat-is_live now n [] s id = (refl, ground arith)
heartbeat-is_live now n (err e ∷ stream) s id = (refl, ground arith)
heartbeat-is_live now n (ok sender ∷ stream) s id =
    let t = (CatalogStore.heartbeat (now n) sender s).1 in
    let (answers, live) = heartbeat-is_live now (n + 1) stream t id in
    (
      ap (λ bs. true ∷ bs) answers,
      live
          ∙ ground (
            arith,
            is_live-seen (now n) sender id s.coordinators,
            is_registered-seen (now n) sender id s.coordinators,
          ),
    )
