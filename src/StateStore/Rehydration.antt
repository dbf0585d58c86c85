-- ===== src/StateStore/Rehydration.antt =====
-- server/state_store.py: the loop of `_rehydrate` over the sidecars.
use kimina_lean_server.Base.{
  ◌≡◌, refl, ap, ◌∙◌, ◌⊎◌, inl, inr, String, true, false, Option, none, some, [], ◌∷◌,
  String_discrete, string_key, Option-cases, Bool-cases, arith,
}
use mathlib.Core.Logic.{if_pos}
use kimina_lean_server.Base.Dict
use kimina_lean_server.Base.Dict.{Dict}
use kimina_lean_server.StateStore.{
  Store, StateRecord, Sidecar, Bin, index_add, load, Content, unreadable, token_only, readable,
  Read, ignored, unlinked, found, read_metadata,
}
use kimina_lean_server.StateStore.Consistency.{IsConsistent, content_of, state_of, mem-index_add}

-- A record stands in the sidecar that is named after its token, as `_write_metadata` writes it.
abbrev pub Named : String → Sidecar → Type 0
Named name file = (r : StateRecord) → state_of file.content ≡ some r → r.state_token ≡ name

-- The sidecars that are still to be read.
abbrev pub Unread : Dict String Sidecar → Store → Type 0
Unread files s =
    (name : String) (file : Sidecar)
    → Dict.get name files ≡ some file
    → (Dict.get name s.sidecars ≡ some file) × (Dict.get name s.records ≡ none) × Named name file

abbrev pub with_record : StateRecord → Store → Store
with_record r s = record s {
  records = Dict.put r.state_token r s.records;
  tokens_by_item_id = index_add r.item_id r.state_token s.tokens_by_item_id;
}

abbrev pub dropped : String → Store → Store
dropped name s = record s { sidecars = Dict.pop name s.sidecars }

pub with_record-IsConsistent :
    (r : StateRecord) (s : Store)
    → Dict.get r.state_token s.records ≡ none
    → Dict.has r.state_token s.bins ≡ true
    → content_of (Dict.get r.state_token s.sidecars) ≡ some r
    → IsConsistent s
    → IsConsistent (with_record r s)
with_record-IsConsistent r s fresh file written c = record {
  unique = Dict.put-Unique r.state_token r s.records c.unique;
  named = λ t q e. ground (arith, Dict.get-put r.state_token t r s.records, c.named t q);
  indexed = λ i t. ground (
    arith,
    mem-index_add r.item_id r.state_token i t s.tokens_by_item_id,
    Dict.get-put r.state_token t r s.records,
    c.indexed i t,
  );
  stored = λ t q e. ground (arith, Dict.get-put r.state_token t r s.records, c.stored t q);
}

pub dropped-IsConsistent :
    (name : String) (s : Store)
    → Dict.get name s.records ≡ none
    → IsConsistent s
    → IsConsistent (dropped name s)
dropped-IsConsistent name s fresh c = record {
  unique = c.unique;
  named = c.named;
  indexed = c.indexed;
  stored = λ t q e. ground (arith, Dict.get-pop name t s.sidecars, c.stored t q);
}

-- What a sidecar holds, by what `_read_metadata` made of it.
abbrev Says : Content → Dict String Bin → Read → Type 0
Says c bins ignored = state_of c ≡ none
Says c bins unlinked =
    (state_of c ≡ none)
    ⊎ ((r : StateRecord) × (state_of c ≡ some r) × (Dict.has r.state_token bins ≡ false))
Says c bins (found r) = (state_of c ≡ some r) × (Dict.has r.state_token bins ≡ true)

read_metadata-Says : (c : Content) (bins : Dict String Bin) → Says c bins (read_metadata c bins)
unfolding read_metadata
read_metadata-Says unreadable bins = refl
read_metadata-Says (token_only token) bins = elim (Bool-cases (Dict.has token bins)) [
  | inl e ↦ rw e refl
  | inr e ↦ rw e (inl refl)
]
read_metadata-Says (readable r) bins = elim (Bool-cases (Dict.has r.state_token bins)) [
  | inl e ↦ rw e (refl, e)
  | inr e ↦ rw e (inr (r, refl, e))
]

Read-cases :
    (c : Content) (bins : Dict String Bin)
    → ((read_metadata c bins ≡ ignored) × (state_of c ≡ none))
      ⊎ ((read_metadata c bins ≡ unlinked) × Says c bins unlinked)
      ⊎ ((r : StateRecord) × (read_metadata c bins ≡ found r) × Says c bins (found r))
Read-cases c bins = go (read_metadata c bins) refl (read_metadata-Says c bins)
  where
    go :
        (z : Read)
        → read_metadata c bins ≡ z
        → Says c bins z
        → ((read_metadata c bins ≡ ignored) × (state_of c ≡ none))
          ⊎ ((read_metadata c bins ≡ unlinked) × Says c bins unlinked)
          ⊎ ((r : StateRecord) × (read_metadata c bins ≡ found r) × Says c bins (found r))
    go ignored e h = inl (e, h)
    go unlinked e h = inr (inl (e, h))
    go (found r) e h = inr (inr (r, e, h))

pub load-ignored :
    (name : String) (file : Sidecar) (files : Dict String Sidecar) (s : Store)
    → read_metadata file.content s.bins ≡ ignored
    → load ((name, file) ∷ files) s ≡ load files s
unfolding load
load-ignored name file files s e = rw (e, load) refl

pub load-found :
    (name : String) (file : Sidecar) (r : StateRecord) (files : Dict String Sidecar) (s : Store)
    → read_metadata file.content s.bins ≡ found r
    → load ((name, file) ∷ files) s ≡ load files (with_record r s)
unfolding load
load-found name file r files s e = rw (e, load) refl

pub load-dropped :
    (name : String) (file : Sidecar) (files : Dict String Sidecar) (s : Store)
    → read_metadata file.content s.bins ≡ unlinked
    → load ((name, file) ∷ files) s ≡ load files (dropped name s)
unfolding load
load-dropped name file files s e = rw (e, load) refl

pub Unread-next :
    (name : String) (file : Sidecar) (files : Dict String Sidecar) (s : Store)
    → Dict.get name files ≡ none
    → Unread ((name, file) ∷ files) s
    → Unread files s
unfolding Dict.get
Unread-next name file files s u h n f e = ground (arith, h n f)

pub Unread-head :
    (name : String) (file : Sidecar) (files : Dict String Sidecar) (s : Store)
    → Unread ((name, file) ∷ files) s
    → (Dict.get name s.sidecars ≡ some file) × (Dict.get name s.records ≡ none) × Named name file
unfolding Dict.get
Unread-head name file files s h = h name file (rw (if_pos (String_discrete name name) refl))

pub Unread-with_record :
    (r : StateRecord) (files : Dict String Sidecar) (s : Store)
    → Dict.get r.state_token files ≡ none
    → Unread files s
    → Unread files (with_record r s)
Unread-with_record r files s u h n f e =
    ground (arith, h n f, Dict.get-put r.state_token n r s.records)

pub Unread-dropped :
    (name : String) (files : Dict String Sidecar) (s : Store)
    → Dict.get name files ≡ none
    → Unread files s
    → Unread files (dropped name s)
Unread-dropped name files s u h n f e = ground (arith, h n f, Dict.get-pop name n s.sidecars)

pub load-IsConsistent :
    (files : Dict String Sidecar) (s : Store)
    → Dict.Unique files
    → Unread files s
    → IsConsistent s
    → IsConsistent (load files s)
unfolding load
load-IsConsistent [] s u h c = c
load-IsConsistent ((name, file) ∷ files) s u h c =
    let rest = Unread-next name file files s u.0 h in
    let (there, fresh, named) = Unread-head name file files s h in
    elim (Read-cases file.content s.bins) [
      | inl (e, _) ↦ rw (load-ignored name file files s e) (load-IsConsistent files s u.1 rest c)
      | inr (inl (e, _)) ↦ rw (load-dropped name file files s e) (
          load-IsConsistent files (dropped name s) u.1 (Unread-dropped name files s u.0 rest)
            (dropped-IsConsistent name s fresh c))
      | inr (inr (r, e, (f, b))) ↦
          let name' = named r f in
          rw (load-found name file r files s e) (
            load-IsConsistent files (with_record r s) u.1
              (Unread-with_record r files s (ap (λ t. Dict.get t files) name' ∙ u.0) rest)
              (with_record-IsConsistent r s (ap (λ t. Dict.get t s.records) name' ∙ fresh) b
                (ap (λ t. content_of (Dict.get t s.sidecars)) name' ∙ ap content_of there ∙ f) c))
    ]

-- The record that a restart makes of what it finds under a token.
abbrev pub recovered : Option Bin → Option StateRecord → Option StateRecord
recovered none r = none
recovered (some file) r = r

-- What is found under a token: that of its sidecar, if there is one.
pub load-get :
    (files : Dict String Sidecar) (t : String) (s : Store)
    → Dict.Unique files
    → Unread files s
    → Dict.get t (load files s).records
      ≡ elim (recovered (Dict.get t s.bins) (content_of (Dict.get t files))) [
        | none ↦ Dict.get t s.records
        | some r ↦ some r
      ]
unfolding load Dict.get
load-get [] t s u h = elim (Option-cases (Dict.get t s.bins)) [
  | inl e ↦ rw e refl
  | inr (f, e) ↦ rw e refl
]
load-get ((name, file) ∷ files) t s u h =
    let rest = Unread-next name file files s u.0 h in
    let (there, fresh, named) = Unread-head name file files s h in
    elim (Read-cases file.content s.bins) [
      | inl (e, f) ↦
          rw (load-ignored name file files s e) (ground (arith, load-get files t s u.1 rest))
      | inr (inl (e, inl f)) ↦ rw (load-dropped name file files s e) (
          ground
            (arith, load-get files t (dropped name s) u.1 (Unread-dropped name files s u.0 rest)))
      | inr (inl (e, inr (r, f, b))) ↦
          let name' = named r f in
          rw (load-dropped name file files s e) (
            ground
              (arith, load-get files t (dropped name s) u.1 (Unread-dropped name files s u.0 rest)))
      | inr (inr (r, e, (f, b))) ↦
          let name' = named r f in
          rw (load-found name file r files s e) (
            ground (
              arith,
              load-get files t (with_record r s) u.1
                  (Unread-with_record r files s (ap (λ t. Dict.get t files) name' ∙ u.0) rest),
              Dict.get-put r.state_token t r s.records,
            ))
    ]
