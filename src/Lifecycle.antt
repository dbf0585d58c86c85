-- ===== src/Lifecycle.antt =====
-- server/exec_lifecycle.py: the registry of exec items. A method returns the new registry beside
-- its result. `_records` is a dictionary whose record is written back where the source mutates it.
-- Each reading of the clock is an argument: `now` is that of `sweep_terminal`, and `later` that of
-- `_set_terminal`, in a unit in which the retention is a whole number.
pub mod Invariant
pub mod Sticky
pub mod Counting
mod Examples
use kimina_lean_server.Base.{
  ℕ, zero, suc, ◌+◌, ◌-◌, String, Bool, true, false, not, Option, none, some, [], List, ◌∷◌, ltb,
  leb, if◌then◌else◌, length, keep, total, ◌==◌, ◌&&◌, string_key,
}
use kimina_lean_server.Base.Dict
use kimina_lean_server.Base.Dict.{Dict}

-- LifecycleStatus
pub data Status : Type 0 where
  active cancelling drained cleaned : Status

-- _LifecycleRecord
pub record LifecycleRecord : Type 0 where
  pub status : Status
  pub in_flight : ℕ
  pub terminal_expires_at : Option ℕ

-- LifecycleSnapshot
pub record Snapshot : Type 0 where
  pub item_id : String
  pub status : Status
  pub in_flight : ℕ

-- BeginResult, whose `status` is "started" or "cancelled"
pub record BeginResult : Type 0 where
  pub started : Bool
  pub snapshot : Snapshot

-- CleanupDecision, whose `action` is "delete" or "defer"
pub record CleanupDecision : Type 0 where
  pub should_delete : Bool
  pub snapshot : Snapshot

-- ItemLifecycleStats
pub record Stats : Type 0 where
  pub total_items : ℕ
  pub active_items : ℕ
  pub cancelling_items : ℕ
  pub drained_items : ℕ
  pub cleaned_items : ℕ
  pub in_flight_items : ℕ
  pub total_in_flight : ℕ

pub record Registry : Type 0 where
  pub retention : ℕ
  pub records : Dict String LifecycleRecord

-- __init__: a retention that is not positive is refused.
pub init : ℕ → Option Registry
init zero = none
init (suc n) = some (record { retention = suc n; records = [] })

-- `record.status in {"cancelling", "drained", "cleaned"}`
abbrev pub is_stopped : Status → Bool
is_stopped active = false
is_stopped cancelling = true
is_stopped drained = true
is_stopped cleaned = true

abbrev pub is_cancelling : Status → Bool
is_cancelling cancelling = true
is_cancelling _ = false

abbrev pub is_cleaned : Status → Bool
is_cleaned cleaned = true
is_cleaned _ = false

abbrev pub is_active : Status → Bool
is_active active = true
is_active _ = false

abbrev pub is_drained : Status → Bool
is_drained drained = true
is_drained _ = false

abbrev pub fresh : Status → LifecycleRecord
fresh s = record { status = s; in_flight = 0; terminal_expires_at = none }

-- `self._records.get(item_id)`, with the record that is made for a missing one.
abbrev pub or_fresh : Option LifecycleRecord → LifecycleRecord
or_fresh none = fresh active
or_fresh (some r) = r

abbrev pub has_expired : ℕ → LifecycleRecord → Bool
has_expired now r = elim r.terminal_expires_at [ none ↦ false | some t ↦ leb t now ]

-- sweep_terminal, which also counts what it pops
unfoldable pub sweep : ℕ → Registry → Registry
sweep now g = record g { records = Dict.retain (λ r. not (has_expired now r)) g.records }

pub swept : ℕ → Registry → ℕ
swept now g = length (keep (has_expired now) (Dict.values g.records))

-- _set_terminal
unfoldable pub set_terminal : ℕ → ℕ → Status → LifecycleRecord
set_terminal retention later s = record {
  status = s;
  in_flight = 0;
  terminal_expires_at = some (later + retention);
}

-- _snapshot
abbrev snapshot_of : String → LifecycleRecord → Snapshot
snapshot_of item r = record { item_id = item; status = r.status; in_flight = r.in_flight }

abbrev pub write : String → LifecycleRecord → Registry → Registry
write item r g = record g { records = Dict.put item r g.records }

abbrev pub lookup : String → Registry → Option LifecycleRecord
lookup item g = Dict.get item g.records

begin_swept : String → Registry → Registry × BeginResult
begin_swept item g =
    let r = or_fresh (lookup item g) in
    if is_stopped r.status
    then (g, record { started = false; snapshot = snapshot_of item r })
    else (let r' = record r { in_flight = r.in_flight + 1 } in
        (write item r' g, record { started = true; snapshot = snapshot_of item r' }))

unfoldable pub begin : String → ℕ → Registry → Registry × BeginResult
unfolding sweep begin_swept
begin item now g = begin_swept item (sweep now g)

-- The body of `finish` on the record, after it was found or made.
unfoldable pub finished : ℕ → ℕ → LifecycleRecord → LifecycleRecord
unfolding set_terminal
finished retention later r =
    let r' = if ltb 0 r.in_flight then record r { in_flight = r.in_flight - 1 } else r in
    if is_cancelling r'.status && r'.in_flight == 0
    then set_terminal retention later drained
    else r'

unfoldable pub finish : String → ℕ → Registry → Registry × Snapshot
unfolding finished
finish item later g =
    let r = finished g.retention later (or_fresh (lookup item g)) in
    (write item r g, snapshot_of item r)

-- The body of `cancel` on the record that was found; `none` stands for no record.
unfoldable pub cancelled : ℕ → ℕ → Option LifecycleRecord → LifecycleRecord
unfolding set_terminal
cancelled retention later none = set_terminal retention later drained
cancelled retention later (some r) =
    if is_cleaned r.status
    then r
    else (if r.in_flight == 0
        then set_terminal retention later drained
        else record r { status = cancelling; terminal_expires_at = none })

unfoldable pub cancel : String → ℕ → ℕ → Registry → Registry × Snapshot
unfolding sweep cancelled
cancel item now later g =
    let swept = sweep now g in
    let r = cancelled g.retention later (lookup item swept) in
    (write item r swept, snapshot_of item r)

unfoldable pub cleanup_decision : String → ℕ → Registry → Registry × CleanupDecision
unfolding sweep
cleanup_decision item now g =
    let r = or_fresh (lookup item (sweep now g)) in
    (sweep now g, record { should_delete = leb r.in_flight 0; snapshot = snapshot_of item r })

unfoldable pub mark_cleaned : String → ℕ → Registry → Registry × Snapshot
unfolding set_terminal
mark_cleaned item later g =
    let r = set_terminal g.retention later cleaned in (write item r g, snapshot_of item r)

-- snapshot
pub snapshot : String → Registry → Snapshot
snapshot item g = snapshot_of item (or_fresh (lookup item g))

unfoldable pub should_cancel : String → Registry → Bool
should_cancel item g = elim (lookup item g) [ none ↦ false | some r ↦ is_stopped r.status ]

abbrev count : (Status → Bool) → Registry → ℕ
count test g = length (keep (λ r. test r.status) (Dict.values g.records))

pub stats : ℕ → Registry → Registry × Stats
unfolding sweep
stats now g =
    let g' = sweep now g in
    (
      g',
      record {
        total_items = length g'.records;
        active_items = count is_active g';
        cancelling_items = count is_cancelling g';
        drained_items = count is_drained g';
        cleaned_items = count is_cleaned g';
        in_flight_items = length (keep (λ r. ltb 0 r.in_flight) (Dict.values g'.records));
        total_in_flight = total (λ r. r.in_flight) (Dict.values g'.records);
      },
    )

-- A call of a method that changes the registry, with its readings of the clock.
pub data Call : Type 0 where
  begins : String → ℕ → Call
  finishes : String → ℕ → Call
  cancels : String → ℕ → ℕ → Call
  decides : String → ℕ → Call
  marks : String → ℕ → Call
  reports : ℕ → Call

unfoldable pub apply : Call → Registry → Registry
apply (begins item now) g = (begin item now g).0
apply (finishes item later) g = (finish item later g).0
apply (cancels item now later) g = (cancel item now later g).0
apply (decides item now) g = (cleanup_decision item now g).0
apply (marks item later) g = (mark_cleaned item later g).0
apply (reports now) g = (stats now g).0

unfoldable pub run : List Call → Registry → Registry
run [] g = g
run (c ∷ cs) g = run cs (apply c g)
