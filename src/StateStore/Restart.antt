-- ===== src/StateStore/Restart.antt =====
-- server/state_store.py: `_rehydrate`, what a store makes of the directory that an earlier one left.
use kimina_lean_server.StateStore.Rehydration.{
  Named, Unread, load-IsConsistent, recovered, load-get,
}
use kimina_lean_server.Base.{
  ℕ, ◌≡◌, refl, sym, ap, ◌∙◌, inl, inr, String, true, Option, none, some, mem, string_key, leb,
  Bool-cases, arith,
}
use kimina_lean_server.Base.Int.{ℤ, below_minus_one}
use mathlib.Core.Path.{subst}
use kimina_lean_server.Base.Dict
use kimina_lean_server.Base.Dict.{Dict}
use kimina_lean_server.StateStore.{Store, StateRecord, Sidecar, Bin, load, opened, restart}
use kimina_lean_server.StateStore.Consistency.{IsConsistent, content_of}

abbrev pub AllNamed : Dict String Sidecar → Type 0
AllNamed files =
    (name : String) (file : Sidecar) → Dict.get name files ≡ some file → Named name file

opened-IsConsistent :
    (ttl : ℕ) (z : ℤ) (bins : Dict String Bin) (files : Dict String Sidecar)
    → IsConsistent (opened ttl z bins files)
unfolding Dict.get mem
opened-IsConsistent ttl z bins files = record {
  unique = tt;
  named = λ t r e. cc;
  indexed = λ i t. refl;
  stored = λ t r e. cc;
}

opened-Unread :
    (ttl : ℕ) (z : ℤ) (bins : Dict String Bin) (files : Dict String Sidecar)
    → AllNamed files
    → Unread files (opened ttl z bins files)
unfolding Dict.get
opened-Unread ttl z bins files h n f e = (e, refl, h n f e)

restart-load :
    (ttl : ℕ) (z : ℤ) (bins : Dict String Bin) (files : Dict String Sidecar) (s : Store)
    → restart ttl z bins files ≡ some s
    → load files (opened ttl z bins files) ≡ s
unfolding restart
restart-load ttl z bins files s h = elim (Bool-cases (leb ttl 0)) [
  | inl e ↦ let h' = rw e at h in cc
  | inr e ↦
      let h' = rw e at h in
      elim (Bool-cases (below_minus_one z)) [
        | inl f ↦ let g = rw f at h' in cc
        | inr f ↦ let g = rw f at h' in cc
      ]
]

-- Whatever files an earlier run left, if each sidecar holds the record that it is named after, a
-- new store begins with records, index and files in agreement.
pub restart-IsConsistent :
    (ttl : ℕ) (z : ℤ) (bins : Dict String Bin) (files : Dict String Sidecar) (s : Store)
    → Dict.Unique files
    → AllNamed files
    → restart ttl z bins files ≡ some s
    → IsConsistent s
restart-IsConsistent ttl z bins files s u h e =
    subst IsConsistent (restart-load ttl z bins files s e) (
      load-IsConsistent files _ u (opened-Unread ttl z bins files h)
        (opened-IsConsistent ttl z bins files))

restart-get :
    (ttl : ℕ) (z : ℤ) (bins : Dict String Bin) (files : Dict String Sidecar) (t : String)
    → Dict.Unique files
    → AllNamed files
    → Dict.get t (load files (opened ttl z bins files)).records
      ≡ recovered (Dict.get t bins) (content_of (Dict.get t files))
unfolding Dict.get
restart-get ttl z bins files t u h =
    load-get files t (opened ttl z bins files) u (opened-Unread ttl z bins files h)
    ∙ collapse (recovered (Dict.get t bins) (content_of (Dict.get t files)))
  where
    collapse : (o : Option StateRecord) → elim o [ none ↦ none | some r ↦ some r ] ≡ o
    collapse none = refl
    collapse (some r) = refl

-- If the directory has each sidecar once, and none holds the record of another token than the one it
-- is named after, a store that starts on the directory of a consistent one finds each of its records
-- again under the same token, and no record but those whose file and sidecar are both there.
pub restart_recovers :
    (ttl : ℕ) (z : ℤ) (old s : Store)
    → Dict.Unique old.sidecars
    → AllNamed old.sidecars
    → IsConsistent old
    → restart ttl z old.bins old.sidecars ≡ some s
    → ((t : String) (r : StateRecord)
        → Dict.get t old.records ≡ some r
        → Dict.get t s.records ≡ some r)
      × ((t : String)
          → Dict.get t s.records
            ≡ recovered (Dict.get t old.bins) (content_of (Dict.get t old.sidecars)))
restart_recovers ttl z old s u h c e =
    let all : (t : String)
        → Dict.get t s.records
          ≡ recovered (Dict.get t old.bins) (content_of (Dict.get t old.sidecars)) =
      λ t.
        ap (λ (x : Store). Dict.get t x.records)
          (sym (restart-load ttl z old.bins old.sidecars s e))
        ∙ restart-get ttl z old.bins old.sidecars t u h in
    (λ t r g. let (bin, file) = c.stored t r g in all t ∙ still t r bin file, all)
  where
    still :
        (t : String) (r : StateRecord)
        → Dict.has t old.bins ≡ true
        → content_of (Dict.get t old.sidecars) ≡ some r
        → recovered (Dict.get t old.bins) (content_of (Dict.get t old.sidecars)) ≡ some r
    still t r b f = ground arith
