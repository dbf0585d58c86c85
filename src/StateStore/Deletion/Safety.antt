-- ===== src/StateStore/Deletion/Safety.antt =====
-- server/state_store.py: deletion keeps the store consistent and spares what is pinned.
use kimina_lean_server.Base.{
  ℕ, ◌-◌, ◌≡◌, refl, inl, inr, String, true, false, some, List, [], ◌∷◌, mem, discard, mem-discard,
  ite, String_discrete, string_key, Option-cases, Bool-cases, arith, leb,
}
use kimina_lean_server.Base.Int.{ℤ, pos, negsuc}
use kimina_lean_server.Base.Dict
use kimina_lean_server.Base.Dict.{Dict}
use kimina_lean_server.StateStore.{Store, StateRecord, Sidecar, Bin, tokens_of, stats}
use kimina_lean_server.StateStore.Consistency.{IsConsistent}
use kimina_lean_server.StateStore.Deletion.{
  index_discard, erase, delete_one, delete_tokens, gc_over_budget, choose, sorted, sweep_orphans,
  sweep_bins, sweep_sidecars, gc_expired, expired,
}

tokens_of_nonempty :
    (item i t : String) (ts : List String) (index : Dict String (List String))
    → mem String_discrete t (
        tokens_of (
          Dict.get i
            (elim ts [ [] ↦ Dict.pop item index | x ∷ rest ↦ Dict.put item (x ∷ rest) index ])))
      ≡ ite
          (String_discrete item i)
          (mem String_discrete t ts)
          (mem String_discrete t (tokens_of (Dict.get i index)))
unfolding mem
tokens_of_nonempty item i t [] index = rw (Dict.get-pop item i index) (ground arith)
tokens_of_nonempty item i t (x ∷ rest) index =
    rw (Dict.get-put item i (x ∷ rest) index) (ground arith)

mem-index_discard :
    (item token i t : String) (index : Dict String (List String))
    → mem String_discrete t (tokens_of (Dict.get i (index_discard item token index)))
      ≡ ite
          (String_discrete item i)
          (ite
            (String_discrete token t)
            false
            (mem String_discrete t (tokens_of (Dict.get i index))))
          (mem String_discrete t (tokens_of (Dict.get i index)))
unfolding index_discard
mem-index_discard item token i t index = elim (Option-cases (Dict.get item index)) [
  | inl e ↦
      rw (e, index_discard)
        (elim (String_discrete item i) [ yes p ↦ unfold mem in ground arith | no n ↦ ground arith ])
  | inr (ts, e) ↦
      rw (e, index_discard)
        (rw
          (
            tokens_of_nonempty item i t (discard String_discrete token ts) index,
            mem-discard String_discrete token t ts,
          )
          (elim (String_discrete item i) [ yes p ↦ ground arith | no n ↦ ground arith ]))
]

erase-IsConsistent :
    (token : String) (r : StateRecord) (s : Store)
    → Dict.get token s.records ≡ some r
    → IsConsistent s
    → IsConsistent (erase token r s)
unfolding erase
erase-IsConsistent token r s found c =
    let name = c.named token r found in
    record {
      unique = Dict.pop-Unique token s.records c.unique;
      named = λ t q e. ground (arith, Dict.get-pop token t s.records, c.named t q);
      indexed = λ i t. ground (
        arith,
        mem-index_discard r.item_id token i t s.tokens_by_item_id,
        Dict.get-pop token t s.records,
        c.indexed i t,
      );
      stored = λ t q e. ground (
        arith,
        Dict.get-pop token t s.records,
        Dict.get-pop r.state_token t s.bins,
        Dict.get-pop token t s.sidecars,
        c.stored t q,
      );
    }

pub delete_one-IsConsistent :
    (t : String) (s : Store) → IsConsistent s → IsConsistent (delete_one t s).0
unfolding delete_one
delete_one-IsConsistent t s c = elim (Bool-cases (Dict.has t s.pinned)) [
  | inl e ↦ rw e c
  | inr e ↦ rw e (elim (Option-cases (Dict.get t s.records)) [
    | inl f ↦ rw f c
    | inr (r, f) ↦ rw f (erase-IsConsistent t r s f c)
  ])
]

pub delete_tokens-IsConsistent :
    (ts : List String) (s : Store) → IsConsistent s → IsConsistent (delete_tokens ts s).0
unfolding delete_tokens
delete_tokens-IsConsistent [] s c = c
delete_tokens-IsConsistent (t ∷ ts) s c =
    delete_tokens-IsConsistent ts _ (delete_one-IsConsistent t s c)

sweep_bins-get :
    (cutoff : ℕ) (records : Dict String StateRecord) (t : String) (d : Dict String Bin)
    → Dict.has t records ≡ true
    → Dict.get t (sweep_bins cutoff records d) ≡ Dict.get t d
unfolding sweep_bins Dict.get
sweep_bins-get cutoff records t [] h = refl
sweep_bins-get cutoff records t ((n, f) ∷ d) h = ground (arith, sweep_bins-get cutoff records t d h)

sweep_sidecars-get :
    (cutoff : ℕ) (records : Dict String StateRecord) (t : String) (d : Dict String Sidecar)
    → Dict.has t records ≡ true
    → Dict.get t (sweep_sidecars cutoff records d) ≡ Dict.get t d
unfolding sweep_sidecars Dict.get
sweep_sidecars-get cutoff records t [] h = refl
sweep_sidecars-get cutoff records t ((n, f) ∷ d) h =
    ground (arith, sweep_sidecars-get cutoff records t d h)

has_found :
    (t : String) (r : StateRecord) (d : Dict String StateRecord)
    → Dict.get t d ≡ some r
    → Dict.has t d ≡ true
has_found t r d e = rw (e, Dict.has)

sweep_orphans-IsConsistent :
    (cutoff : ℕ) (s : Store) → IsConsistent s → IsConsistent (sweep_orphans cutoff s).0
unfolding sweep_orphans
sweep_orphans-IsConsistent cutoff s c = record {
  unique = c.unique;
  named = c.named;
  indexed = c.indexed;
  stored = λ t r e. ground (
    arith,
    has_found t r s.records e,
    sweep_bins-get cutoff s.records t s.bins,
    sweep_sidecars-get cutoff s.records t s.sidecars,
    c.stored t r e,
  );
}

gc_over_budget-IsConsistent : (s : Store) → IsConsistent s → IsConsistent (gc_over_budget s).0
unfolding gc_over_budget
gc_over_budget-IsConsistent s c = within s.max_bytes refl
  where
    within : (z : ℤ) → s.max_bytes ≡ z → IsConsistent (gc_over_budget s).0
    within (negsuc n) e = rw (e, gc_over_budget) c
    within (pos limit) e =
        rw (e, gc_over_budget)
          (elim (Bool-cases (leb (stats s).total_bytes limit)) [
            | inl f ↦ rw f c
            | inr f ↦ rw f (
                delete_tokens-IsConsistent
                  (choose limit (stats s).total_bytes (sorted (Dict.values s.records))) s c)
          ])

-- A sweep, with whatever it deletes, leaves the records, the index and the files in agreement.
pub gc_expired-IsConsistent :
    (now : ℕ) (s : Store) → IsConsistent s → IsConsistent (gc_expired now s).0
unfolding gc_expired
gc_expired-IsConsistent now s c = sweep_orphans-IsConsistent (now - s.ttl) _ (
    gc_over_budget-IsConsistent _
      (delete_tokens-IsConsistent (expired (now - s.ttl) s.records) s c))
