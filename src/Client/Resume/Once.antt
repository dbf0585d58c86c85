-- ===== src/Client/Resume/Once.antt =====
-- A microbatch of a call is sent at most once, over any number of runs.
use mathlib.Core.Path.{subst}
use kimina_lean_server.Base.{
  Distinct-append, mem-append, leb, ℕ, ◌+◌, String, String_discrete, Bool, true, false, ◌||◌, ◌≡◌,
  refl, ap, inl, inr, Option, none, some, Option-cases, List, [], ◌∷◌, ◌++◌, map, Distinct, mem,
  has_duplicates, Bool-cases, ℕ_discrete, ite, arith,
}
use kimina_lean_server.Client.Journal.{running, complete, unknown, MicrobatchRecord, File, get, put}
use kimina_lean_server.Client.Journal.Records.{get-put, get-put_other}
use kimina_lean_server.Client.Resume.{
  microbatches, Reply, responded, failed, died, Outcome, merged, refused_size, refused_request,
  mismatch, uncertain, interrupted, crashed, Run, entry, stopped, recorded, after_record,
  after_reply, resume, step_batch_resumable, prepend_results,
}

module _ {Item Result : Type 0} where
  -- Whether the journal has a record.
  abbrev is_known : Option (MicrobatchRecord Item Result) → Bool
  is_known none = false
  is_known (some r) = true

  abbrev pub known : String → ℕ → File Item Result → Bool
  known call_id n file = is_known (get call_id n file)

  known-put :
      (call_id : String) (n m : ℕ) (r : MicrobatchRecord Item Result) (file : File Item Result)
      → known call_id m (put call_id n r file) ≡ ite (ℕ_discrete n m) true (known call_id m file)
  known-put call_id n m r file =
      elim (ℕ_discrete n m)
        as (λ d. known call_id m (put call_id n r file) ≡ ite d true (known call_id m file)) [
          | yes p ↦
              subst (λ k. known call_id k (put call_id n r file) ≡ true) p
                (ap is_known (get-put call_id n r file))
          | no q ↦ ap is_known (get-put_other call_id n m r file q)
        ]

  -- A run gives records to exactly the microbatches that it sends; it sends each once, and none that
  -- had a record before.
  abbrev pub Sends : String → File Item Result → Run Item Result → Type 0
  Sends call_id file run =
      ((m : ℕ) → known call_id m run.file ≡ (known call_id m file || mem ℕ_discrete m run.sent))
      × Distinct ℕ_discrete run.sent
      × ((m : ℕ) → mem ℕ_discrete m run.sent ≡ true → known call_id m file ≡ false)

  nothing-Sends :
      (call_id : String) (file : File Item Result) (o : Outcome Result)
      → Sends call_id file (record { file = file; sent = []; outcome = o })
  unfolding mem
  nothing-Sends call_id file o = (λ m. ground arith, tt, λ m h. cc)

  -- The journal `next` has a record of `n` beside those of the journal `file`.
  abbrev Gains : String → ℕ → File Item Result → File Item Result → Type 0
  Gains call_id n file next =
      (m : ℕ) → known call_id m next ≡ ite (ℕ_discrete n m) true (known call_id m file)

  twice-Gains :
      (call_id : String) (n : ℕ) (r s : MicrobatchRecord Item Result) (file : File Item Result)
      → Gains call_id n file (put call_id n r (put call_id n s file))
  twice-Gains call_id n r s file m =
      rw (known-put call_id n m r (put call_id n s file), known-put call_id n m s file)
        (ground arith)

  -- Sending the microbatch `n`, and then what else is sent.
  sent-Sends :
      (call_id : String) (n : ℕ) (file next : File Item Result) (run : Run Item Result)
      (o : Outcome Result)
      → get call_id n file ≡ none
      → Gains call_id n file next
      → Sends call_id next run
      → Sends call_id file (record { file = run.file; sent = n ∷ run.sent; outcome = o })
  unfolding mem
  sent-Sends call_id n file next run o g k (m, d, a) =
      let f : known call_id n file ≡ false = rw g refl in
      (
        λ j. ground (arith, m j, k j),
        (ground (arith, a n, k n), d),
        λ j h. ground (arith, a j, k j),
      )

  after_reply-Sends :
      (call_id : String) (n : ℕ) (items : List Item) (reply : Reply Result)
      (file : File Item Result) (go_on : File Item Result → Run Item Result)
      → get call_id n file ≡ none
      → ((next : File Item Result) → Sends call_id next (go_on next))
      → Sends call_id file
          (after_reply call_id n items reply (put call_id n (entry running items none) file) go_on)
  unfolding after_reply
  after_reply-Sends call_id n items died file go_on g h =
      let next = put call_id n (entry running items none) file in
      sent-Sends call_id n file next (stopped next [] (merged [])) (crashed n) g
        (λ m. known-put call_id n m (entry running items none) file)
        (nothing-Sends call_id next (merged []))
  after_reply-Sends call_id n items failed file go_on g h =
      let next =
        put call_id n (entry unknown items none) (put call_id n (entry running items none) file) in
      sent-Sends call_id n file next (stopped next [] (merged [])) (interrupted n) g
        (twice-Gains call_id n (entry unknown items none) (entry running items none) file)
        (nothing-Sends call_id next (merged []))
  after_reply-Sends call_id n items (responded results) file go_on g h =
      let next =
        put call_id n (entry complete items (some results))
          (put call_id n (entry running items none) file) in
      sent-Sends call_id n file next (go_on next) (prepend_results results (go_on next).outcome) g
        (twice-Gains call_id n (entry complete items (some results)) (entry running items none)
          file)
        (h next)

module _ {Item Result : Type 0} (dec : Discrete (List Item)) (node_id : Item → String) where
  after-Sends :
      (call_id : String) (n : ℕ) (items : List Item) (r : MicrobatchRecord Item Result)
      (file : File Item Result) (rest : Run Item Result)
      → Sends call_id file rest
      → Sends call_id file (after_record file (recorded dec node_id n items r) rest)
  after-Sends call_id n items r file rest h = go (recorded dec node_id n items r)
    where
      go : (o : Outcome Result) → Sends call_id file (after_record file o rest)
      go (merged rs) = h
      go refused_size = nothing-Sends call_id file refused_size
      go refused_request = nothing-Sends call_id file refused_request
      go mismatch = nothing-Sends call_id file mismatch
      go (uncertain k status) = nothing-Sends call_id file (uncertain k status)
      go (interrupted k) = nothing-Sends call_id file (interrupted k)
      go (crashed k) = nothing-Sends call_id file (crashed k)

  -- Nothing but the microbatches that the loop sends gets a record, and each of them had none.
  pub resume-Sends :
      (backend : ℕ → List Item → Reply Result) (call_id : String) (n : ℕ)
      (batches : List (List Item)) (file : File Item Result)
      → Sends call_id file (resume dec node_id backend call_id n batches file)
  unfolding resume
  resume-Sends backend call_id n [] file = nothing-Sends call_id file (merged [])
  resume-Sends backend call_id n (items ∷ batches) file =
      elim (Bool-cases (has_duplicates String_discrete (map node_id items))) [
        | inl b ↦ rw (b, resume) (nothing-Sends call_id file refused_request)
        | inr b ↦ elim (Option-cases (get call_id n file)) [
          | inr (r, g) ↦
              rw (b, g, resume)
                (after-Sends call_id n items r file
                  (resume dec node_id backend call_id (n + 1) batches file)
                  (resume-Sends backend call_id (n + 1) batches file))
          | inl g ↦
              rw (b, g, resume)
                (after_reply-Sends call_id n items (backend n items) file
                  (λ next. resume dec node_id backend call_id (n + 1) batches next) g
                  (λ next. resume-Sends backend call_id (n + 1) batches next))
        ]
      ]

  step_batch_resumable-Sends :
      (backend : ℕ → List Item → Reply Result) (call_id : String) (size : ℕ) (items : List Item)
      (file : File Item Result)
      → Sends call_id file (step_batch_resumable dec node_id backend call_id size items file)
  unfolding step_batch_resumable
  step_batch_resumable-Sends backend call_id size items file = elim (Bool-cases (leb size 0)) [
    | inl e ↦ rw (e, step_batch_resumable) (nothing-Sends call_id file refused_size)
    | inr e ↦
        rw (e, step_batch_resumable) (resume-Sends backend call_id 0 (microbatches size items) file)
  ]

  -- Runs for one `env_call_id`, one after another, with what each is given: the microbatches that
  -- they send.
  abbrev pub sent_by :
      String → List ((ℕ → List Item → Reply Result) × ℕ × List Item) → File Item Result → List ℕ
  unfolding step_batch_resumable
  sent_by call_id [] file = []
  sent_by call_id ((backend, size, items) ∷ runs) file =
      let run = step_batch_resumable dec node_id backend call_id size items file in
      run.sent ++ sent_by call_id runs run.file

  sent_by-unknown :
      (call_id : String) (runs : List ((ℕ → List Item → Reply Result) × ℕ × List Item))
      (file : File Item Result) (m : ℕ)
      → known call_id m file ≡ true
      → mem ℕ_discrete m (sent_by call_id runs file) ≡ false
  unfolding sent_by mem
  sent_by-unknown call_id [] file m h = refl
  sent_by-unknown call_id ((backend, size, items) ∷ runs) file m h =
      let run = step_batch_resumable dec node_id backend call_id size items file in
      let s = step_batch_resumable-Sends backend call_id size items file in
      ground (
        arith,
        s.0 m,
        s.2 m,
        sent_by-unknown call_id runs run.file m,
        mem-append ℕ_discrete m run.sent (sent_by call_id runs run.file),
      )

-- However often a call is made again, with whatever items and limits, and however its runs end, by
-- an answer, an exception or a crash: no microbatch of it is sent twice.
pub sent_by-Distinct :
    {Item Result : Type 0} (dec : Discrete (List Item)) (node_id : Item → String) (call_id : String)
    (runs : List ((ℕ → List Item → Reply Result) × ℕ × List Item)) (file : File Item Result)
    → Distinct ℕ_discrete (sent_by dec node_id call_id runs file)
unfolding sent_by
sent_by-Distinct dec node_id call_id [] file = tt
sent_by-Distinct dec node_id call_id ((backend, size, items) ∷ runs) file =
    let run = step_batch_resumable dec node_id backend call_id size items file in
    let s = step_batch_resumable-Sends dec node_id backend call_id size items file in
    Distinct-append ℕ_discrete run.sent (sent_by dec node_id call_id runs run.file) s.1
      (sent_by-Distinct dec node_id call_id runs run.file)
      (λ m h. sent_by-unknown dec node_id call_id runs run.file m (ground (arith, s.0 m)))
