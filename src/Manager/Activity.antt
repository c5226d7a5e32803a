-- ===== src/Manager/Activity.antt =====
-- src/project_manager.rs, the ring of recent activity: events of all projects, the oldest first.
-- Project identifiers and times are numbers.
pub mod Ring
use windy_public.Prelude.{
  ℕ, zero, suc, ◌-◌, String, Bool, true, false, Option, none, some, List, [], ◌∷◌, ◌++◌,
  if◌then◌else◌, ltb, leb, ◌==◌, length, take, drop,
}

pub record ActivityEvent : Type 0 where
  pub timestamp : ℕ
  pub project_id : ℕ
  pub client_id : String
  pub op_summary : String
  pub seq : ℕ

abbrev pub activity_capacity : ℕ
activity_capacity = 200

unfoldable pub pop_front : List ActivityEvent → List ActivityEvent
pop_front [] = []
pop_front (e ∷ es) = es

-- `record_activity`, after the event is in the activity journal, whose outcome is not looked at.
unfoldable pub record_activity : List ActivityEvent → ActivityEvent → List ActivityEvent
unfolding pop_front
record_activity log event =
    (if leb activity_capacity (length log) then pop_front log else log) ++ event ∷ []

-- `sort_by_key(|e| e.timestamp)`, which is stable.
unfoldable pub insert_event : ActivityEvent → List ActivityEvent → List ActivityEvent
insert_event e [] = e ∷ []
insert_event e (f ∷ fs) =
    let rest = insert_event e fs in if ltb f.timestamp e.timestamp then f ∷ rest else e ∷ f ∷ fs

unfoldable pub sort_by_timestamp : List ActivityEvent → List ActivityEvent
unfolding insert_event
sort_by_timestamp [] = []
sort_by_timestamp (e ∷ es) = insert_event e (sort_by_timestamp es)

-- The last events of a list, at most `n`.
unfoldable pub last_events : ℕ → List ActivityEvent → List ActivityEvent
last_events n es = drop (length es - n) es

unfoldable pub merge_events : List ActivityEvent → List ActivityEvent → List ActivityEvent
unfolding sort_by_timestamp last_events
merge_events log [] = log
merge_events log (e ∷ extra) = last_events activity_capacity (sort_by_timestamp (e ∷ extra ++ log))

unfoldable pub of_project : Option ℕ → ActivityEvent → Bool
of_project none e = true
of_project (some id) e = e.project_id == id

unfoldable pub filter_project : Option ℕ → List ActivityEvent → List ActivityEvent
unfolding of_project
filter_project id [] = []
filter_project id (e ∷ es) =
    let rest = filter_project id es in if of_project id e then e ∷ rest else rest

unfoldable pub recent_activity_filtered : List ActivityEvent → ℕ → Option ℕ → List ActivityEvent
unfolding filter_project last_events
recent_activity_filtered log limit id = take limit (last_events limit (filter_project id log))
