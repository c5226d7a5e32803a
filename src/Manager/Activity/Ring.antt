-- ===== src/Manager/Activity/Ring.antt =====
-- The ring is bounded, in order, and shows the newest event.
use windy_public.Prelude.{
  ℕ, zero, suc, ◌+◌, ◌-◌, ◌<◌, ◌≤◌, min, ◌≡◌, refl, ap, ◌∙◌, true, false, Bool-cases, Option, List,
  [], ◌∷◌, ◌++◌, if◌then◌else◌, ltb, leb, inl, inr, length, length-append, length-drop, take, drop,
  take-append-drop, arith,
}
use windy_public.Manager.Activity.{
  ActivityEvent, activity_capacity, pop_front, record_activity, insert_event, sort_by_timestamp,
  last_events, merge_events, of_project, filter_project, recent_activity_filtered,
}

-- No event of the list is older than the time.
abbrev pub NotBefore : ℕ → List ActivityEvent → Type 0
NotBefore t [] = Unit
NotBefore t (e ∷ es) = (t ≤ e.timestamp) × NotBefore t es

abbrev pub IsChronological : List ActivityEvent → Type 0
IsChronological [] = Unit
IsChronological (e ∷ es) = NotBefore e.timestamp es × IsChronological es

NotBefore-weaken : (t u : ℕ) (es : List ActivityEvent) → t ≤ u → NotBefore u es → NotBefore t es
NotBefore-weaken t u [] h n = tt
NotBefore-weaken t u (e ∷ es) h n = (omega (arith, h, n.0), NotBefore-weaken t u es h n.1)

insert_event-NotBefore :
    (t : ℕ) (e : ActivityEvent) (es : List ActivityEvent)
    → t ≤ e.timestamp
    → NotBefore t es
    → NotBefore t (insert_event e es)
unfolding insert_event
insert_event-NotBefore t e [] h n = (h, tt)
insert_event-NotBefore t e (f ∷ fs) h n = elim (Bool-cases (ltb f.timestamp e.timestamp)) [
  | inl b ↦ rw (b, insert_event) (n.0, insert_event-NotBefore t e fs h n.1)
  | inr b ↦ rw (b, insert_event) (h, n)
]

insert_event-IsChronological :
    (e : ActivityEvent) (es : List ActivityEvent)
    → IsChronological es
    → IsChronological (insert_event e es)
unfolding insert_event
insert_event-IsChronological e [] c = (tt, tt)
insert_event-IsChronological e (f ∷ fs) c = elim (Bool-cases (ltb f.timestamp e.timestamp)) [
  | inl b ↦
      rw (b, insert_event)
        (
          insert_event-NotBefore f.timestamp e fs (ground (arith, b)) c.0,
          insert_event-IsChronological e fs c.1,
        )
  | inr b ↦
      let below = not_later b in
      rw (b, insert_event) ((below, NotBefore-weaken e.timestamp f.timestamp fs below c.0), c)
]
  where
    not_later : ltb f.timestamp e.timestamp ≡ false → e.timestamp ≤ f.timestamp
    not_later b = ground (arith, b)

sort_by_timestamp-IsChronological :
    (es : List ActivityEvent) → IsChronological (sort_by_timestamp es)
unfolding sort_by_timestamp
sort_by_timestamp-IsChronological [] = tt
sort_by_timestamp-IsChronological (e ∷ es) =
    insert_event-IsChronological e (sort_by_timestamp es) (sort_by_timestamp-IsChronological es)

-- The total weight of a list. Lists with the same total for every weight hold the same events.
abbrev pub total : (ActivityEvent → ℕ) → List ActivityEvent → ℕ
total weight [] = 0
total weight (e ∷ es) = weight e + total weight es

total-insert_event :
    (w : ActivityEvent → ℕ) (e : ActivityEvent) (es : List ActivityEvent)
    → total w (insert_event e es) ≡ w e + total w es
unfolding insert_event
total-insert_event w e [] = refl
total-insert_event w e (f ∷ fs) = ground (arith, total-insert_event w e fs)

total-sort_by_timestamp :
    (w : ActivityEvent → ℕ) (es : List ActivityEvent) → total w (sort_by_timestamp es) ≡ total w es
unfolding sort_by_timestamp
total-sort_by_timestamp w [] = refl
total-sort_by_timestamp w (e ∷ es) =
    omega (arith, total-insert_event w e (sort_by_timestamp es), total-sort_by_timestamp w es)

length-insert_event :
    (e : ActivityEvent) (es : List ActivityEvent) → length (insert_event e es) ≡ suc (length es)
unfolding insert_event
length-insert_event e [] = refl
length-insert_event e (f ∷ fs) = ground (arith, length-insert_event e fs)

length-sort_by_timestamp : (es : List ActivityEvent) → length (sort_by_timestamp es) ≡ length es
unfolding sort_by_timestamp
length-sort_by_timestamp [] = refl
length-sort_by_timestamp (e ∷ es) =
    omega (arith, length-insert_event e (sort_by_timestamp es), length-sort_by_timestamp es)

-- Behind the first `n` events of a list in order, the rest is in order and not older than them.
drop-IsChronological :
    (n : ℕ) (es : List ActivityEvent) → IsChronological es → IsChronological (drop n es)
drop-IsChronological zero es c = c
drop-IsChronological (suc n) [] c = c
drop-IsChronological (suc n) (e ∷ es) c = drop-IsChronological n es c.1

drop-NotBefore : (t n : ℕ) (es : List ActivityEvent) → NotBefore t es → NotBefore t (drop n es)
drop-NotBefore t zero es c = c
drop-NotBefore t (suc n) [] c = c
drop-NotBefore t (suc n) (e ∷ es) c = drop-NotBefore t n es c.1

-- None of the events is newer than one of the others.
abbrev pub AllOlder : List ActivityEvent → List ActivityEvent → Type 0
AllOlder [] es = Unit
AllOlder (d ∷ ds) es = NotBefore d.timestamp es × AllOlder ds es

AllOlder-drop :
    (n : ℕ) (es : List ActivityEvent) → IsChronological es → AllOlder (take n es) (drop n es)
AllOlder-drop zero es c = tt
AllOlder-drop (suc n) [] c = tt
AllOlder-drop (suc n) (e ∷ es) c = (drop-NotBefore e.timestamp n es c.0, AllOlder-drop n es c.1)

-- Merging events into the ring gives a ring in order of time, with as many as there are up to the
-- capacity; together with some events that are left out, none of them newer than one in the ring, it
-- holds exactly the new events and those of the old ring.
pub merge_events_lem :
    (log extra : List ActivityEvent) (e : ActivityEvent)
    → IsChronological (merge_events log (e ∷ extra))
      × (length (merge_events log (e ∷ extra))
          ≡ min activity_capacity (suc (length extra + length log)))
      × ((left_out : List ActivityEvent) × AllOlder left_out (merge_events log (e ∷ extra))
          × ((weight : ActivityEvent → ℕ)
              → total weight (left_out ++ merge_events log (e ∷ extra))
                ≡ total weight (e ∷ extra ++ log)))
unfolding merge_events last_events
merge_events_lem log extra e =
    let all = e ∷ extra ++ log in
    let sorted = sort_by_timestamp all in
    let n = length sorted - activity_capacity in
    let order = sort_by_timestamp-IsChronological all in
    (
      drop-IsChronological n sorted order,
      omega (arith, length-drop n sorted, length-sort_by_timestamp all, length-append extra log),
      (
        take n sorted,
        AllOlder-drop n sorted order,
        λ w. ap (total w) (take-append-drop n sorted) ∙ total-sort_by_timestamp w all,
      ),
    )

drop-append_le :
    (k : ℕ) (ys zs : List ActivityEvent) → k ≤ length ys → drop k (ys ++ zs) ≡ drop k ys ++ zs
drop-append_le zero ys zs h = refl
drop-append_le (suc k) [] zs h = absurd (omega (arith, h))
drop-append_le (suc k) (y ∷ ys) zs h = drop-append_le k ys zs (omega (arith, h))

take_all : (n : ℕ) (es : List ActivityEvent) → length es ≤ n → take n es ≡ es
take_all zero [] h = refl
take_all zero (e ∷ es) h = absurd (omega (arith, h))
take_all (suc n) [] h = refl
take_all (suc n) (e ∷ es) h = ap (λ r. e ∷ r) (take_all n es (omega (arith, h)))

filter_project-last :
    (id : Option ℕ) (es : List ActivityEvent) (e : ActivityEvent)
    → of_project id e ≡ true
    → filter_project id (es ++ e ∷ []) ≡ filter_project id es ++ e ∷ []
unfolding filter_project
filter_project-last id [] e h = rw (h, filter_project) refl
filter_project-last id (f ∷ fs) e h = elim (Bool-cases (of_project id f)) [
  | inl b ↦ rw (b, filter_project) (ap (λ r. f ∷ r) (filter_project-last id fs e h))
  | inr b ↦ rw (b, filter_project) (filter_project-last id fs e h)
]

last_events-last :
    (n : ℕ) (ys : List ActivityEvent) (e : ActivityEvent)
    → (before : List ActivityEvent) × (take (suc n) (last_events (suc n) (ys ++ e ∷ []))
        ≡ before ++ e ∷ [])
      × (length before ≤ n)
unfolding last_events
last_events-last n ys e =
    let k = length (ys ++ e ∷ []) - suc n in
    let size = length-append ys (e ∷ []) in
    let kept = drop k ys in
    let few = length-drop k ys in
    let split = drop-append_le k ys (e ∷ []) (omega (arith, size)) in
    (
      kept,
      take_all (suc n) (drop k (ys ++ e ∷ [])) (omega (arith, length-drop k (ys ++ e ∷ [])))
          ∙ split,
      omega (arith, few, size),
    )

length-pop_front : (es : List ActivityEvent) → length (pop_front es) ≡ length es - 1
unfolding pop_front
length-pop_front [] = refl
length-pop_front (e ∷ es) = omega arith

length-record_activity :
    (log : List ActivityEvent) (e : ActivityEvent)
    → length log ≤ activity_capacity
    → length (record_activity log e) ≤ activity_capacity
unfolding record_activity
length-record_activity log e h = elim (Bool-cases (leb activity_capacity (length log))) [
  | inl b ↦
      rw (b, record_activity)
        (omega (arith, h, length-append (pop_front log) (e ∷ []), length-pop_front log))
  | inr b ↦ rw (b, record_activity) (omega (arith, length-append log (e ∷ []), short b))
]
  where
    short : leb activity_capacity (length log) ≡ false → length log < activity_capacity
    short b = ground (arith, b)

-- What was just recorded is the last event shown, where at least one is asked for, of all projects or
-- of its own; no more are shown than asked for, and a ring within its capacity stays within it.
pub recent-record_activity :
    (log : List ActivityEvent) (e : ActivityEvent) (n : ℕ) (id : Option ℕ)
    → of_project id e ≡ true
    → length log ≤ activity_capacity
    → ((before : List ActivityEvent) × (recent_activity_filtered (record_activity log e) (suc n) id
          ≡ before ++ e ∷ [])
        × (length before ≤ n))
      × (length (record_activity log e) ≤ activity_capacity)
unfolding recent_activity_filtered record_activity
recent-record_activity log e n id h bound =
    let older = if leb activity_capacity (length log) then pop_front log else log in
    let (before, shown, few) = last_events-last n (filter_project id older) e in
    (
      (
        before,
        ap (λ es. take (suc n) (last_events (suc n) es)) (filter_project-last id older e h) ∙ shown,
        few,
      ),
      length-record_activity log e bound,
    )
