-- ===== src/Metrics.antt =====
-- server/exec_metrics.py: the counters of the exec service. A `Counter` is a dictionary of numbers in
-- which a missing key counts as 0.
use kimina_lean_server.Base.{
  ℕ, ◌+◌, ◌≡◌, refl, String, String_discrete, string_key, Option, none, some, List, [], ◌∷◌, ite,
  total, arith,
}
use kimina_lean_server.Base.Dict
use kimina_lean_server.Base.Dict.{Dict}

abbrev Counter : Type 0
Counter = Dict String ℕ

abbrev count_of : Option ℕ → ℕ
count_of none = 0
count_of (some n) = n

abbrev pub count : String → Counter → ℕ
count key c = count_of (Dict.get key c)

-- `counter[key] += 1`
increment : String → Counter → Counter
increment key c = Dict.put key (count key c + 1) c

-- Counter.update, over some keys
update : List String → Counter → Counter
unfolding increment
update [] c = c
update (k ∷ ks) c = update ks (increment k c)

record ExecMetrics : Type 0 where
  pub endpoint_requests : Counter
  pub rejected_requests : Counter
  pub exec_status_counts : Counter
  pub cleanup_status_counts : Counter
  pub cancel_status_counts : Counter

record_endpoint : String → ExecMetrics → ExecMetrics
unfolding increment
record_endpoint endpoint m = record m { endpoint_requests = increment endpoint m.endpoint_requests }

record_rejection : String → ExecMetrics → ExecMetrics
unfolding increment
record_rejection reason m = record m { rejected_requests = increment reason m.rejected_requests }

record_exec_statuses : List String → ExecMetrics → ExecMetrics
unfolding update
record_exec_statuses statuses m = record m {
  exec_status_counts = update statuses m.exec_status_counts;
}

record_cleanup_statuses : List String → ExecMetrics → ExecMetrics
unfolding update
record_cleanup_statuses statuses m = record m {
  cleanup_status_counts = update statuses m.cleanup_status_counts;
}

record_cancel_statuses : List String → ExecMetrics → ExecMetrics
unfolding update
record_cancel_statuses statuses m = record m {
  cancel_status_counts = update statuses m.cancel_status_counts;
}

abbrev times : String → List String → ℕ
times key ks = total (λ k. ite (String_discrete k key) 1 0) ks

count-increment :
    (k key : String) (c : Counter)
    → count key (increment k c) ≡ count key c + ite (String_discrete k key) 1 0
unfolding increment
count-increment k key c = ground (arith, Dict.get-put k key (count k c + 1) c)

count-update :
    (ks : List String) (key : String) (c : Counter)
    → count key (update ks c) ≡ count key c + times key ks
unfolding update total
count-update [] key c = omega arith
count-update (k ∷ ks) key c =
    omega (arith, count-update ks key (increment k c), count-increment k key c)

-- Recording the statuses of a response adds, for each status, the number of times it stands in the
-- response, to the counter of its own kind and to no other.
record_statuses-count :
    (statuses : List String) (status : String) (m : ExecMetrics)
    → let exec = record_exec_statuses statuses m in
      let cleanup = record_cleanup_statuses statuses m in
      let cancel = record_cancel_statuses statuses m in
      (count status exec.exec_status_counts
        ≡ count status m.exec_status_counts + times status statuses)
      × (count status cleanup.cleanup_status_counts
          ≡ count status m.cleanup_status_counts + times status statuses)
      × (count status cancel.cancel_status_counts
          ≡ count status m.cancel_status_counts + times status statuses)
      × (record exec { exec_status_counts = m.exec_status_counts } ≡ m)
      × (record cleanup { cleanup_status_counts = m.cleanup_status_counts } ≡ m)
      × (record cancel { cancel_status_counts = m.cancel_status_counts } ≡ m)
unfolding record_exec_statuses record_cleanup_statuses record_cancel_statuses
record_statuses-count statuses status m = (
  count-update statuses status m.exec_status_counts,
  count-update statuses status m.cleanup_status_counts,
  count-update statuses status m.cancel_status_counts,
  refl,
  refl,
  refl,
)
