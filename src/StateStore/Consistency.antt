-- ===== src/StateStore/Consistency.antt =====
-- server/state_store.py: the records, the index by item and the files agree.
use kimina_lean_server.Base.{
  ℕ, ◌≡◌, inl, inr, String, Bool, true, false, Option, none, some, List, [], ◌∷◌, mem, mem-append,
  ite, String_discrete, string_key, Option-cases, arith,
}
use kimina_lean_server.Base.Dict
use kimina_lean_server.Base.Dict.{Dict}
use kimina_lean_server.StateStore.{
  Store, StateRecord, Sidecar, Content, unreadable, token_only, readable, Bin, Origin, tokens_of,
  add_token, index_add, promote, put, new_token, new_record, touch, resolve,
}

abbrev pub owned_by : String → Option StateRecord → Bool
owned_by item none = false
owned_by item (some r) = ite (String_discrete r.item_id item) true false

abbrev pub state_of : Content → Option StateRecord
state_of unreadable = none
state_of (token_only token) = none
state_of (readable r) = some r

abbrev pub content_of : Option Sidecar → Option StateRecord
content_of none = none
content_of (some f) = state_of f.content

pub record IsConsistent (s : Store) : Type 0 where
  pub unique : Dict.Unique s.records
  pub named :
      (token : String) (r : StateRecord) → Dict.get token s.records ≡ some r → r.state_token ≡ token
  pub indexed :
      (item token : String)
      → mem String_discrete token (tokens_of (Dict.get item s.tokens_by_item_id))
        ≡ owned_by item (Dict.get token s.records)
  pub stored :
      (token : String) (r : StateRecord)
      → Dict.get token s.records ≡ some r
      → (Dict.has token s.bins ≡ true) × (content_of (Dict.get token s.sidecars) ≡ some r)

mem-add_token :
    (t u : String) (ts : List String)
    → mem String_discrete u (add_token t ts)
      ≡ ite (String_discrete t u) true (mem String_discrete u ts)
unfolding add_token mem
mem-add_token t u ts = ground (arith, mem-append String_discrete u ts (t ∷ []))

pub mem-index_add :
    (item token i t : String) (index : Dict String (List String))
    → mem String_discrete t (tokens_of (Dict.get i (index_add item token index)))
      ≡ ite
          (String_discrete item i)
          (ite
            (String_discrete token t)
            true
            (mem String_discrete t (tokens_of (Dict.get i index))))
          (mem String_discrete t (tokens_of (Dict.get i index)))
unfolding index_add
mem-index_add item token i t index = elim (String_discrete item i) [
  | yes e ↦
      rw (Dict.get-put item i (add_token token (tokens_of (Dict.get item index))) index)
        (ground (arith, mem-add_token token t (tokens_of (Dict.get item index))))
  | no n ↦
      rw (Dict.get-put item i (add_token token (tokens_of (Dict.get item index))) index)
        (ground arith)
]

promote-IsConsistent :
    (source : String) (file : Bin) (o : Origin) (token : String) (now : ℕ) (s : Store)
    → Dict.get token s.records ≡ none
    → Dict.get source s.records ≡ none
    → IsConsistent s
    → IsConsistent (promote source file o token now s)
unfolding promote
promote-IsConsistent source file o token now s fresh scratch c = record {
  unique = Dict.put-Unique token _ s.records c.unique;
  named = λ t r e.
      ground
        (arith, Dict.get-put token t (new_record o token file.size now) s.records, c.named t r);
  indexed = λ i t. ground (
    arith,
    mem-index_add o.item_id token i t s.tokens_by_item_id,
    Dict.get-put token t (new_record o token file.size now) s.records,
    c.indexed i t,
  );
  stored = λ t r e. ground (
    arith,
    Dict.get-put token t (new_record o token file.size now) s.records,
    Dict.get-put token t file (Dict.pop source s.bins),
    Dict.get-pop source t s.bins,
    Dict.get-put token t
        (record { content = readable (new_record o token file.size now); mtime = now }) s.sidecars,
    c.stored t r,
  );
}

-- A token that `_new_token` returns names no record.
pub new_token_fresh :
    (candidates : List String) (records : Dict String StateRecord) (token : String)
    → new_token candidates records ≡ some token
    → Dict.get token records ≡ none
unfolding new_token
new_token_fresh [] records token h = cc
new_token_fresh (t ∷ ts) records token h = ground (arith, new_token_fresh ts records token)

-- `put` keeps records, index and files in agreement, if the file that it moves is not that of a
-- record.
pub put-IsConsistent :
    (source : String) (o : Origin) (candidates : List String) (now : ℕ) (s : Store)
    → Dict.get source s.records ≡ none
    → IsConsistent s
    → IsConsistent (put source o candidates now s).0
unfolding put
put-IsConsistent source o candidates now s scratch c =
    elim (Option-cases (Dict.get source s.bins)) [
      | inl e ↦ rw (e, put) c
      | inr (file, e) ↦
          rw (e, put)
            (elim (Option-cases (new_token candidates s.records)) [
              | inl f ↦ rw f c
              | inr (token, f) ↦ rw f (
                  promote-IsConsistent source file o token now s
                    (new_token_fresh candidates s.records token f) scratch c)
            ])
    ]

touch-IsConsistent :
    (token : String) (r : StateRecord) (now : ℕ) (s : Store)
    → Dict.get token s.records ≡ some r
    → IsConsistent s
    → IsConsistent (touch r now s)
unfolding touch
touch-IsConsistent token r now s found c =
    let name = c.named token r found in
    let updated = record r { last_accessed_at = now } in
    record {
      unique = Dict.put-Unique r.state_token updated s.records c.unique;
      named = λ t q e. ground (arith, Dict.get-put r.state_token t updated s.records, c.named t q);
      indexed =
          λ i t. ground (arith, Dict.get-put r.state_token t updated s.records, c.indexed i t);
      stored = λ t q e. ground (
        arith,
        Dict.get-put r.state_token t updated s.records,
        Dict.get-put r.state_token t (record { content = readable updated; mtime = now })
            s.sidecars,
        c.stored t q,
        c.stored token r,
      );
    }

-- `resolve` keeps them in agreement: the record and its sidecar get the same new time of access.
resolve-IsConsistent :
    (token : String) (now : ℕ) (s : Store) → IsConsistent s → IsConsistent (resolve token now s).0
unfolding resolve
resolve-IsConsistent token now s c = elim (Option-cases (Dict.get token s.records)) [
  | inl e ↦ rw (e, resolve) c
  | inr (r, e) ↦ rw (e, resolve) (touch-IsConsistent token r now s e c)
]
