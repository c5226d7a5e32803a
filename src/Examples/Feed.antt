-- ===== src/Examples/Feed.antt =====
-- Tests and examples for the ring of activity.
use windy_public.Prelude.{
  ℕ, ◌≤◌, min, ◌≡◌, refl, List, [], ◌∷◌, ◌++◌, map, some, none, length, arith,
}
use windy_public.Manager.Activity.{
  ActivityEvent, activity_capacity, record_activity, merge_events, of_project,
  recent_activity_filtered,
}
use windy_public.Manager.Activity.Ring.{
  IsChronological, AllOlder, total, merge_events_lem, recent-record_activity,
}

abbrev event : ℕ → ℕ → ActivityEvent
event time seq = record {
  timestamp = time;
  project_id = 1;
  client_id = "ann";
  op_summary = "rename";
  seq = seq;
}

merge_events_lem_example :
    IsChronological (merge_events (event 5 2 ∷ []) (event 3 1 ∷ event 9 3 ∷ []))
    × (length (merge_events (event 5 2 ∷ []) (event 3 1 ∷ event 9 3 ∷ []))
        ≡ min activity_capacity 3)
    × ((left_out : List ActivityEvent) × AllOlder left_out
          (merge_events (event 5 2 ∷ []) (event 3 1 ∷ event 9 3 ∷ []))
        × ((weight : ActivityEvent → ℕ)
            → total weight (left_out ++ merge_events (event 5 2 ∷ []) (event 3 1 ∷ event 9 3 ∷ []))
              ≡ total weight (event 3 1 ∷ event 9 3 ∷ event 5 2 ∷ [])))
merge_events_lem_example = merge_events_lem (event 5 2 ∷ []) (event 9 3 ∷ []) (event 3 1)

recent-record_activity_example :
    ((before : List ActivityEvent) × (recent_activity_filtered
          (record_activity (event 5 2 ∷ []) (event 9 3))
          1
          (some 1)
        ≡ before ++ event 9 3 ∷ [])
      × (length before ≤ 0))
    × (length (record_activity (event 5 2 ∷ []) (event 9 3)) ≤ activity_capacity)
unfolding of_project
recent-record_activity_example =
    recent-record_activity (event 5 2 ∷ []) (event 9 3) 0 (some 1) refl (omega arith)

-- The ring keeps the events of a project that was closed: merging its journal again shows them twice.
reopened_twice :
    map
      (λ e. e.seq)
      (recent_activity_filtered
        (merge_events (event 5 2 ∷ event 9 3 ∷ []) (event 5 2 ∷ event 9 3 ∷ []))
        10
        none)
    ≡ 2 ∷ 2 ∷ 3 ∷ 3 ∷ []
unfolding recent_activity_filtered merge_events
reopened_twice = refl
