-- ===== src/Maintenance/Queue.antt =====
-- `FileMaintenanceStore` of crates/pg-agent-core/src/maintenance.rs. The directory is the list of its
-- `.json` files, in the order in which they are read. A write goes through a temporary file and a
-- rename, so it takes effect whole or not at all; the removals of a call fail as its writes do.
use pg_agent_rs.Prelude.{
  ℕ, String, ◌+◌, Bool, true, not, ◌&&◌, ◌||◌, Option, none, some, List, [], ◌∷◌, if◌then◌else◌,
  ltb, u32, u64, ◌==◌, find, keep, any, keep_some, Result, ok, err,
}
use pg_agent_rs.Inflight.Journal.{Io}
use pg_agent_rs.Maintenance.{
  MaintenanceStatus, pending, done, abandoned, status_eqb, MaintenancePayload, Failure, IntentId,
  no_id, made, id_eqb, MaintenanceIntent, SkippedIntent, IntentFile, intent, corrupt, file_id,
}

pub data QueueError : Type 0 where
  read_failed : QueueError
  write_failed : QueueError
  parse_failed : String → QueueError
  id_required : QueueError
  not_found : IntentId → QueueError
  cannot_reschedule : IntentId → MaintenanceStatus → QueueError

pub record FileMaintenanceStore : Type 0 where
  pub files : List IntentFile
  pub retention : ℕ
  pub seq : ℕ

abbrev pub Answer : Type 0
Answer = Result QueueError (Unit {0})

-- the file of the intent's id is replaced, or added
unfoldable pub put : MaintenanceIntent → List IntentFile → List IntentFile
unfolding file_id
put i [] = intent i ∷ []
put i (f ∷ fs) = if id_eqb (file_id f) i.id then intent i ∷ fs else f ∷ put i fs

unfoldable pub write_atomic :
    Io → MaintenanceIntent → FileMaintenanceStore → Answer × FileMaintenanceStore
unfolding put
write_atomic io i st =
    if io.writes then (ok tt, record st { files = put i st.files }) else (err write_failed, st)

abbrev good : IntentFile → Option MaintenanceIntent
good (intent i) = some i
good (corrupt s) = none

abbrev bad : IntentFile → Option SkippedIntent
bad (intent i) = none
bad (corrupt s) = some s

-- the intents, and the files that cannot be read
unfoldable pub read_all :
    Io → FileMaintenanceStore → Result QueueError (List MaintenanceIntent × List SkippedIntent)
read_all io st =
    if io.reads then ok (keep_some good st.files, keep_some bad st.files) else err read_failed

unfoldable pub new_intent : ℕ → ℕ → MaintenancePayload → MaintenanceIntent
new_intent now seq p = record {
  id = made now seq;
  status = pending;
  payload = p;
  attempts = 0;
  last_error = none;
  created_at = now;
  updated_at = now;
  next_retry_at = none;
}

written : MaintenanceIntent → Answer → Result QueueError MaintenanceIntent
written i (ok u) = ok i
written i (err e) = err e

unfoldable pub append :
    Io
    → ℕ
    → MaintenancePayload
    → FileMaintenanceStore
    → Result QueueError MaintenanceIntent × FileMaintenanceStore
unfolding new_intent write_atomic written
append io now p st =
    let i = new_intent now st.seq p in
    let (r, st') = write_atomic io i (record st { seq = u64 (st.seq + 1) }) in (written i r, st')

-- `sort_by` on the creation, then on the id's text, whose order is `id_leb`
abbrev pub oldest : (IntentId → IntentId → Bool) → MaintenanceIntent → MaintenanceIntent → Bool
oldest id_leb a b =
    if ltb a.created_at b.created_at then true else a.created_at == b.created_at && id_leb a.id b.id

module _ {A : Type 0} (before : A → A → Bool) where
  sorted_in : A → List A → List A
  sorted_in x [] = x ∷ []
  sorted_in x (y ∷ ys) = if before x y then x ∷ y ∷ ys else y ∷ sorted_in x ys

  unfoldable pub sort_by : List A → List A
  unfolding sorted_in
  sort_by [] = []
  sort_by (x ∷ xs) = sorted_in x (sort_by xs)

-- is a file kept by the prune? Terminal intents past the retention go.
unfoldable pub unpruned : ℕ → ℕ → IntentFile → Bool
unpruned now retention (corrupt s) = true
unpruned now retention (intent i) =
    status_eqb i.status pending || not (ltb (i.updated_at + retention) now)

unfoldable pub list_pending :
    (IntentId → IntentId → Bool)
    → Io
    → ℕ
    → FileMaintenanceStore
    → Result QueueError (List MaintenanceIntent) × FileMaintenanceStore
unfolding read_all unpruned sort_by
list_pending id_leb io now st =
    let pruned = record st { files = keep (unpruned now st.retention) st.files } in
    elim (read_all io st) [
      | err e ↦ (err e, st)
      | ok (intents, skipped) ↦ (
        ok (
            sort_by (oldest id_leb)
              (keep (λ (i : MaintenanceIntent). status_eqb i.status pending) intents)),
        if io.writes then pruned else st,
      )
    ]

abbrev wanted : List MaintenanceStatus → MaintenanceIntent → Bool
wanted [] i = true
wanted (s ∷ ss) i = any (status_eqb i.status) (s ∷ ss)

unfoldable pub list :
    (IntentId → IntentId → Bool)
    → Io
    → List MaintenanceStatus
    → FileMaintenanceStore
    → Result QueueError (List MaintenanceIntent × List SkippedIntent)
unfolding read_all sort_by
list id_leb io statuses st = elim (read_all io st) [
  | err e ↦ err e
  | ok (intents, skipped) ↦ ok (
    sort_by (oldest id_leb) (keep (wanted statuses) intents),
    sort_by (λ (a b : SkippedIntent). id_leb a.path b.path) skipped,
  )
]

unfoldable pub read_file : Option IntentFile → IntentId → Result QueueError MaintenanceIntent
read_file none id = err (not_found id)
read_file (some (corrupt s)) id = err (parse_failed s.error)
read_file (some (intent i)) id = ok i

unfoldable pub get : Io → IntentId → FileMaintenanceStore → Result QueueError MaintenanceIntent
unfolding read_file file_id
get io no_id st = err id_required
get io (made a n) st =
    if io.reads
    then read_file (find (λ (f : IntentFile). id_eqb (file_id f) (made a n)) st.files) (made a n)
    else err read_failed

-- `get`, then a change that is written back
unfoldable pub rewrite :
    Io
    → Result QueueError MaintenanceIntent
    → (MaintenanceIntent → MaintenanceIntent)
    → FileMaintenanceStore
    → Answer × FileMaintenanceStore
unfolding write_atomic
rewrite io (err e) change st = (err e, st)
rewrite io (ok i) change st = write_atomic io (change i) st

abbrev pub attempted : ℕ → Failure → ℕ → MaintenanceIntent → MaintenanceIntent
attempted now why retry_at i = record i {
  attempts = u32 (i.attempts + 1);
  last_error = some why;
  updated_at = now;
  next_retry_at = some retry_at;
  status = pending;
}

unfoldable pub mark_attempt :
    Io → ℕ → IntentId → Failure → ℕ → FileMaintenanceStore → Answer × FileMaintenanceStore
unfolding get rewrite
mark_attempt io now id why retry_at st = rewrite io (get io id st) (attempted now why retry_at) st

abbrev pub finished : ℕ → MaintenanceIntent → MaintenanceIntent
finished now i = record i {
  status = done;
  updated_at = now;
  next_retry_at = none;
  last_error = none;
}

unfoldable pub mark_done : Io → ℕ → IntentId → FileMaintenanceStore → Answer × FileMaintenanceStore
unfolding get rewrite
mark_done io now id st = rewrite io (get io id st) (finished now) st

abbrev pub given_up : ℕ → Failure → MaintenanceIntent → MaintenanceIntent
given_up now why i = record i {
  status = abandoned;
  updated_at = now;
  last_error = some why;
  next_retry_at = none;
}

unfoldable pub mark_abandoned :
    Io → ℕ → IntentId → Failure → FileMaintenanceStore → Answer × FileMaintenanceStore
unfolding get rewrite
mark_abandoned io now id why st = rewrite io (get io id st) (given_up now why) st

reschedule_read :
    Io
    → ℕ
    → IntentId
    → Result QueueError MaintenanceIntent
    → ℕ
    → FileMaintenanceStore
    → Answer × FileMaintenanceStore
unfolding write_atomic
reschedule_read io now id (err e) when st = (err e, st)
reschedule_read io now id (ok i) when st =
    if status_eqb i.status pending
    then write_atomic io (record i { updated_at = now; next_retry_at = some when }) st
    else (err (cannot_reschedule id i.status), st)

unfoldable pub reschedule :
    Io → ℕ → IntentId → ℕ → FileMaintenanceStore → Answer × FileMaintenanceStore
unfolding get reschedule_read
reschedule io now id when st = reschedule_read io now id (get io id st) when st
