-- ===== src/Client/Resume/Rounds.antt =====
-- The rounds of the loop of `step_batch_resumable`, and the records that they leave alone.
use kimina_lean_server.Base.{
  ℕ, ◌+◌, ◌<◌, String, String_discrete, true, false, ◌≡◌, ◌≢◌, refl, ◌∙◌, inl, inr, none, some,
  Option-cases, List, [], ◌∷◌, map, has_duplicates, Bool-cases, arith,
}
use kimina_lean_server.Client.Journal.{running, complete, MicrobatchRecord, File, get, put}
use kimina_lean_server.Client.Journal.Records.{get-put_other}
use kimina_lean_server.Client.Resume.{
  Reply, responded, failed, died, Outcome, merged, refused_size, refused_request, mismatch,
  uncertain, interrupted, crashed, Run, entry, stopped, recorded, after_record, after_reply, resume,
}

module _ {Item Result : Type 0} where
  after_record-get :
      (call_id : String) (m : ℕ) (file : File Item Result) (o : Outcome Result)
      (rest : Run Item Result)
      → get call_id m rest.file ≡ get call_id m file
      → get call_id m (after_record file o rest).file ≡ get call_id m file
  after_record-get call_id m file (merged rs) rest h = h
  after_record-get call_id m file refused_size rest h = refl
  after_record-get call_id m file refused_request rest h = refl
  after_record-get call_id m file mismatch rest h = refl
  after_record-get call_id m file (uncertain k status) rest h = refl
  after_record-get call_id m file (interrupted k) rest h = refl
  after_record-get call_id m file (crashed k) rest h = refl

  after_reply-get :
      (call_id : String) (n m : ℕ) (items : List Item) (reply : Reply Result)
      (file : File Item Result) (go_on : File Item Result → Run Item Result)
      → n ≢ m
      → ((next : File Item Result) → get call_id m (go_on next).file ≡ get call_id m next)
      → get call_id m (after_reply call_id n items reply file go_on).file ≡ get call_id m file
  unfolding after_reply
  after_reply-get call_id n m items died file go_on ne h = refl
  after_reply-get call_id n m items failed file go_on ne h = get-put_other call_id n m _ file ne
  after_reply-get call_id n m items (responded results) file go_on ne h =
      let done = entry complete items (some results) in
      h (put call_id n done file) ∙ get-put_other call_id n m done file ne

module _ {Item Result : Type 0} (dec : Discrete (List Item)) (node_id : Item → String) where
  pub resume_refused :
      (backend : ℕ → List Item → Reply Result) (call_id : String) (n : ℕ) (items : List Item)
      (batches : List (List Item)) (file : File Item Result)
      → has_duplicates String_discrete (map node_id items) ≡ true
      → resume dec node_id backend call_id n (items ∷ batches) file
        ≡ stopped file [] refused_request
  unfolding resume
  resume_refused backend call_id n items batches file b = rw (b, resume) refl

  pub resume_known :
      (backend : ℕ → List Item → Reply Result) (call_id : String) (n : ℕ) (items : List Item)
      (batches : List (List Item)) (file : File Item Result) (r : MicrobatchRecord Item Result)
      → has_duplicates String_discrete (map node_id items) ≡ false
      → get call_id n file ≡ some r
      → resume dec node_id backend call_id n (items ∷ batches) file
        ≡ after_record file
            (recorded dec node_id n items r)
            (resume dec node_id backend call_id (n + 1) batches file)
  unfolding resume
  resume_known backend call_id n items batches file r b k = rw (b, k, resume) refl

  pub resume_new :
      (backend : ℕ → List Item → Reply Result) (call_id : String) (n : ℕ) (items : List Item)
      (batches : List (List Item)) (file : File Item Result)
      → has_duplicates String_discrete (map node_id items) ≡ false
      → get call_id n file ≡ none
      → resume dec node_id backend call_id n (items ∷ batches) file
        ≡ after_reply call_id n items
            (backend n items)
            (put call_id n (entry running items none) file)
            (λ next. resume dec node_id backend call_id (n + 1) batches next)
  unfolding resume
  resume_new backend call_id n items batches file b k = rw (b, k, resume) refl

  -- The rest of the loop leaves the records of the microbatches before it.
  pub resume-get :
      (backend : ℕ → List Item → Reply Result) (call_id : String) (n m : ℕ)
      (batches : List (List Item)) (file : File Item Result)
      → m < n
      → get call_id m (resume dec node_id backend call_id n batches file).file ≡ get call_id m file
  unfolding resume
  resume-get backend call_id n m [] file l = refl
  resume-get backend call_id n m (items ∷ batches) file l =
      let ne : n ≢ m = λ e. absurd (omega (arith, e)) in
      elim (Bool-cases (has_duplicates String_discrete (map node_id items))) [
        | inl b ↦ rw (b, resume) refl
        | inr b ↦ elim (Option-cases (get call_id n file)) [
          | inr (r, g) ↦
              rw (b, g, resume)
                (after_record-get call_id m file (recorded dec node_id n items r)
                  (resume dec node_id backend call_id (n + 1) batches file)
                  (resume-get backend call_id (n + 1) m batches file (omega arith)))
          | inl g ↦
              let sending = put call_id n (entry running items none) file in
              rw (b, g, resume)
                (after_reply-get call_id n m items (backend n items) sending
                    (λ next. resume dec node_id backend call_id (n + 1) batches next) ne
                    (λ next. resume-get backend call_id (n + 1) m batches next (omega arith))
                  ∙ get-put_other call_id n m (entry running items none) file ne)
        ]
      ]
