-- ===== src/StateStore/Tokens.antt =====
-- server/state_store.py: what `put` and `create_child` store under the token that they return.
use kimina_lean_server.Base.{
  ◌⊎◌, ℕ, ◌≡◌, ◌≢◌, refl, sym, inl, inr, String, string_key, true, Option, none, some, Option-cases,
  Bool-cases, List, [], ◌∷◌, arith, All,
}
use kimina_lean_server.Base.Dict
use kimina_lean_server.Base.Dict.{Dict}
use kimina_lean_server.StateStore.{
  state_token_not_found, Store, StateRecord, Bin, Origin, Result, ok, err, file_not_found,
  no_fresh_token, new_token, prefixed, promote, put, new_record, touch, resolve, create_child,
  origin_of,
}
use kimina_lean_server.StateStore.Consistency.{new_token_fresh}

-- The search for a token fails only if every candidate is taken.
new_token_exhausted :
    (candidates : List String) (records : Dict String StateRecord)
    → new_token candidates records ≡ none
    → All (λ t. Dict.has (prefixed t) records ≡ true) candidates
unfolding new_token
new_token_exhausted [] records h = tt
new_token_exhausted (t ∷ ts) records h = elim (Bool-cases (Dict.has (prefixed t) records)) [
  | inl e ↦ (e, new_token_exhausted ts records (ground arith))
  | inr e ↦ absurd (ground arith)
]

-- What the outcome of `put` says of the store before and after.
abbrev pub Stores : String → Origin → List String → ℕ → Store → Store → Result String → Type 0
Stores source o candidates now before after (ok token) =
    (Dict.get token before.records ≡ none)
    × ((file : Bin) × (Dict.get source before.bins ≡ some file)
        × (Dict.get token after.records ≡ some (new_record o token file.size now))
        × (Dict.get token after.bins ≡ some file)
        × (source ≢ token → Dict.get source after.bins ≡ none))
Stores source o candidates now before after (err e) =
    (after ≡ before)
    × ((Dict.get source before.bins ≡ none)
        ⊎ All (λ t. Dict.has (prefixed t) before.records ≡ true) candidates)

promote-Stores :
    (source : String) (file : Bin) (o : Origin) (candidates : List String) (token : String)
    (now : ℕ) (s : Store)
    → Dict.get source s.bins ≡ some file
    → Dict.get token s.records ≡ none
    → Stores source o candidates now s (promote source file o token now s) (ok token)
unfolding promote
promote-Stores source file o candidates token now s e fresh = (
  fresh,
  (
    file,
    e,
    Dict.get-put_self token (new_record o token file.size now) s.records,
    Dict.get-put_self token file (Dict.pop source s.bins),
    λ n.
        rw
          (
            Dict.get-put_ne token source file (Dict.pop source s.bins) (λ p. n (sym p)),
            Dict.get-pop source source s.bins,
          )
          (ground arith),
  ),
)

pub put_missing :
    (source : String) (o : Origin) (candidates : List String) (now : ℕ) (s : Store)
    → Dict.get source s.bins ≡ none
    → put source o candidates now s ≡ (s, err file_not_found)
unfolding put
put_missing source o candidates now s e = rw (e, put)

pub put_found :
    (source : String) (o : Origin) (candidates : List String) (now : ℕ) (s : Store) (file : Bin)
    → Dict.get source s.bins ≡ some file
    → put source o candidates now s ≡ elim (new_token candidates s.records) [
      | none ↦ (s, err no_fresh_token)
      | some token ↦ (promote source file o token now s, ok token)
    ]
unfolding put
put_found source o candidates now s file e = rw (e, put)

-- `put` returns a token that named no record, under which the moved file and a record with the
-- caller's data are stored; or it changes nothing, because the file is missing or every candidate
-- of the token factory is taken.
pub put-Stores :
    (source : String) (o : Origin) (candidates : List String) (now : ℕ) (s : Store)
    → Stores source o candidates now s
        (put source o candidates now s).0
        (put source o candidates now s).1
put-Stores source o candidates now s = elim (Option-cases (Dict.get source s.bins)) [
  | inl e ↦ rw (put_missing source o candidates now s e) (refl, inl e)
  | inr (file, e) ↦
      rw (put_found source o candidates now s file e)
        (elim (Option-cases (new_token candidates s.records)) [
          | inl f ↦ rw f (refl, inr (new_token_exhausted candidates s.records f))
          | inr (token, f) ↦ rw f (
              promote-Stores source file o candidates token now s e
                (new_token_fresh candidates s.records token f))
        ])
]

abbrev pub Inherits :
    String → List String → ℕ → Store → Option StateRecord → Store × Result String → Type 0
Inherits child candidates later before none result = result.0 ≡ before
Inherits child candidates later before (some r) result =
    (s' : Store) × (s'.bins ≡ before.bins)
    × Stores child (origin_of r) candidates later s' result.0 result.1

pub child_missing :
    (parent child : String) (candidates : List String) (now later : ℕ) (s : Store)
    → Dict.get parent s.records ≡ none
    → create_child parent child candidates now later s ≡ (s, err state_token_not_found)
unfolding create_child resolve
child_missing parent child candidates now later s e =
    rw (e, create_child, resolve) (rw (e, resolve))

pub child_found :
    (parent child : String) (candidates : List String) (now later : ℕ) (r : StateRecord) (s : Store)
    → Dict.get parent s.records ≡ some r
    → create_child parent child candidates now later s
      ≡ put child (origin_of r) candidates later (touch r now s)
unfolding create_child resolve
child_found parent child candidates now later r s e =
    rw (e, create_child, resolve) (rw (e, resolve))

-- `create_child` stores the file under a new token with the item, the profile and the header of
-- the state that the parent's token names, and changes nothing if it names none.
create_child-Inherits :
    (parent child : String) (candidates : List String) (now later : ℕ) (s : Store)
    → Inherits child candidates later s
        (Dict.get parent s.records)
        (create_child parent child candidates now later s)
create_child-Inherits parent child candidates now later s =
    elim (Option-cases (Dict.get parent s.records)) [
      | inl e ↦ rw (e, child_missing parent child candidates now later s e) refl
      | inr (r, e) ↦
          rw (e, child_found parent child candidates now later r s e)
            (
              touch r now s,
              unfold touch in refl,
              put-Stores child (origin_of r) candidates later (touch r now s),
            )
    ]

-- `put` leaves every record as it was.
pub put_keeps :
    (source : String) (o : Origin) (candidates : List String) (now : ℕ) (t : String)
    (r : StateRecord) (s : Store)
    → Dict.get t s.records ≡ some r
    → Dict.get t (put source o candidates now s).0.records ≡ some r
unfolding promote
put_keeps source o candidates now t r s h = elim (Option-cases (Dict.get source s.bins)) [
  | inl e ↦ rw (put_missing source o candidates now s e) h
  | inr (file, e) ↦
      rw (put_found source o candidates now s file e)
        (elim (Option-cases (new_token candidates s.records)) [
          | inl f ↦ rw f h
          | inr (token, f) ↦
              rw (f, promote)
                (rw (Dict.get-put token t (new_record o token file.size now) s.records)
                  (ground (arith, new_token_fresh candidates s.records token f)))
        ])
]
