-- ===== src/StateStore.antt =====
-- server/state_store.py: `StateStore`. The directory of the store is part of the state: `bins` are
-- its files NAME.bin and `sidecars` its files NAME.json, by NAME, so that `_state_path` and
-- `_metadata_path` are the name of a token, and the worker's scratch files are `bins` too. A
-- sidecar holds a record, or nothing that `_read_metadata` could read. Times are numbers.
pub mod Tokens
pub mod Consistency
pub mod Rehydration
pub mod Restart
pub mod Pins
pub mod Deletion
mod Examples
use text.Mathlib.Text.{starts_with}
use Prim.Native.String as Text
use kimina_lean_server.Base.{
  ◌≡◌, ◌⊎◌, inl, inr, refl, ℕ, zero, suc, ◌+◌, ◌-◌, String, Bool, true, false, not, Option, none,
  some, List, [], ◌∷◌, ◌++◌, leb, ltb, if◌then◌else◌, length, total, mem, remove, String_discrete,
  string_key, same_text, ◌≡◌,
}
use kimina_lean_server.Base.Int.{ℤ, pos, negsuc, below_minus_one}
use kimina_lean_server.Base.Dict
use kimina_lean_server.Base.Dict.{Dict}

-- StateRecord; its path is NAME.bin for its token
pub record StateRecord : Type 0 where
  pub state_token : String
  pub item_id : String
  pub env_profile : String
  pub header : String
  pub header_hash : String
  pub created_at : ℕ
  pub last_accessed_at : ℕ
  pub size_bytes : ℕ

pub record Bin : Type 0 where
  pub size : ℕ
  pub mtime : ℕ

-- What a sidecar holds: no JSON with a token, a token without a whole record, or a record.
pub data Content : Type 0 where
  unreadable : Content
  token_only : String → Content
  readable : StateRecord → Content

pub record Sidecar : Type 0 where
  pub content : Content
  pub mtime : ℕ

pub record Store : Type 0 where
  pub ttl : ℕ
  pub max_bytes : ℤ
  pub records : Dict String StateRecord
  pub tokens_by_item_id : Dict String (List String)
  pub pinned : Dict String ℕ
  pub bins : Dict String Bin
  pub sidecars : Dict String Sidecar

pub data Error : Type 0 where
  file_not_found state_token_not_found no_fresh_token : Error

pub data Result {ℓ} (A : Type ℓ) : Type ℓ where
  ok : A → Result A
  err : Error → Result A

pub Result-cases {ℓ} :
    {A : Type ℓ} (r : Result A) → ((a : A) × (r ≡ ok a)) ⊎ ((e : Error) × (r ≡ err e))
Result-cases (ok a) = inl (a, refl)
Result-cases (err e) = inr (e, refl)

-- StateStoreStats
pub record StateStoreStats : Type 0 where
  pub state_count : ℕ
  pub total_bytes : ℕ
  pub item_count : ℕ
  pub pinned_states : ℕ
  pub pin_refs : ℕ

abbrev pub tokens_of : Option (List String) → List String
tokens_of none = []
tokens_of (some ts) = ts

-- `set.add`
unfoldable pub add_token : String → List String → List String
add_token t ts = if mem String_discrete t ts then ts else ts ++ t ∷ []

-- `self._tokens_by_item_id.setdefault(item_id, set()).add(token)`
unfoldable pub index_add : String → String → Dict String (List String) → Dict String (List String)
unfolding add_token
index_add item token index = Dict.put item (add_token token (tokens_of (Dict.get item index))) index

-- The prefix that `_new_token` gives a token that lacks it.
pub prefixed : String → String
prefixed t = if starts_with t "st_" then t else Text.◌++◌ "st_" t

-- _new_token, over what the token factory returns from one call to the next.
pub new_token : List String → Dict String StateRecord → Option String
unfolding prefixed
new_token [] records = none
new_token (t ∷ ts) records =
    let rest = new_token ts records in
    if Dict.has (prefixed t) records then rest else some (prefixed t)

-- _write_metadata
abbrev write_metadata : StateRecord → ℕ → Dict String Sidecar → Dict String Sidecar
write_metadata r now sidecars =
    Dict.put r.state_token (record { content = readable r; mtime = now }) sidecars

-- What `put` keeps of its caller's arguments.
pub record Origin : Type 0 where
  pub item_id : String
  pub env_profile : String
  pub header : String
  pub header_hash : String

abbrev pub new_record : Origin → String → ℕ → ℕ → StateRecord
new_record o token size now = record {
  state_token = token;
  item_id = o.item_id;
  env_profile = o.env_profile;
  header = o.header;
  header_hash = o.header_hash;
  created_at = now;
  last_accessed_at = now;
  size_bytes = size;
}

-- `put` once the file is known to exist and the token is chosen.
pub promote : String → Bin → Origin → String → ℕ → Store → Store
unfolding index_add
promote source file o token now s =
    let r = new_record o token file.size now in
    record s {
      bins = Dict.put token file (Dict.pop source s.bins);
      records = Dict.put token r s.records;
      tokens_by_item_id = index_add o.item_id token s.tokens_by_item_id;
      sidecars = write_metadata r now s.sidecars;
    }

-- put; the source is a file NAME.bin of the directory
unfoldable pub put : String → Origin → List String → ℕ → Store → Store × Result String
unfolding new_token promote
put source o candidates now s = elim (Dict.get source s.bins) [
  | none ↦ (s, err file_not_found)
  | some file ↦ elim (new_token candidates s.records) [
    | none ↦ (s, err no_fresh_token)
    | some token ↦ (promote source file o token now s, ok token)
  ]
]

-- `resolve` once the record is found.
pub touch : StateRecord → ℕ → Store → Store
touch r now s =
    let updated = record r { last_accessed_at = now } in
    record s {
      records = Dict.put r.state_token updated s.records;
      sidecars = write_metadata updated now s.sidecars;
    }

-- resolve
unfoldable pub resolve : String → ℕ → Store → Store × Result StateRecord
unfolding touch
resolve token now s = elim (Dict.get token s.records) [
  | none ↦ (s, err state_token_not_found)
  | some r ↦ (touch r now s, ok (record r { last_accessed_at = now }))
]

abbrev pub pins_of : Option ℕ → ℕ
pins_of none = 0
pins_of (some n) = n

pub pin : String → Store → Store
pin token s = record s { pinned = Dict.put token (pins_of (Dict.get token s.pinned) + 1) s.pinned }

-- resolve_and_pin
unfoldable pub resolve_and_pin : String → ℕ → Store → Store × Result StateRecord
unfolding resolve pin
resolve_and_pin token now s = elim (resolve token now s).1 [
  | ok r ↦ (pin token (resolve token now s).0, ok r)
  | err e ↦ ((resolve token now s).0, err e)
]

-- unpin
unfoldable pub unpin : String → Store → Store
unpin token s = elim (Dict.get token s.pinned) [
  | none ↦ s
  | some n ↦
      if leb n 1
      then record s { pinned = Dict.pop token s.pinned }
      else record s { pinned = Dict.put token (n - 1) s.pinned }
]

-- unpin_many
unfoldable pub unpin_many : List String → Store → Store
unfolding unpin
unpin_many [] s = s
unpin_many (t ∷ ts) s = unpin_many ts (unpin t s)

abbrev pub origin_of : StateRecord → Origin
origin_of r = record {
  item_id = r.item_id;
  env_profile = r.env_profile;
  header = r.header;
  header_hash = r.header_hash;
}

-- create_child; `now` is read by `resolve`, `later` by `put`
unfoldable pub create_child : String → String → List String → ℕ → ℕ → Store → Store × Result String
unfolding resolve put
create_child parent child candidates now later s = elim (resolve parent now s).1 [
  | err e ↦ ((resolve parent now s).0, err e)
  | ok r ↦ put child (origin_of r) candidates later (resolve parent now s).0
]

-- count_by_item_id
count_by_item_id : String → Store → ℕ
count_by_item_id item s = length (tokens_of (Dict.get item s.tokens_by_item_id))

-- stats
unfoldable pub stats : Store → StateStoreStats
stats s = record {
  state_count = length s.records;
  total_bytes = total (λ r. r.size_bytes) (Dict.values s.records);
  item_count = length s.tokens_by_item_id;
  pinned_states = length s.pinned;
  pin_refs = total (λ n. n) (Dict.values s.pinned);
}

-- What becomes of a sidecar: `None`, `None` after the file was unlinked, or its record.
pub data Read : Type 0 where
  ignored unlinked : Read
  found : StateRecord → Read

-- _read_metadata
pub read_metadata : Content → Dict String Bin → Read
read_metadata unreadable bins = ignored
read_metadata (token_only token) bins = if Dict.has token bins then ignored else unlinked
read_metadata (readable r) bins = if Dict.has r.state_token bins then found r else unlinked

-- The loop of `_rehydrate` over the sidecars, as they were listed.
pub load : List (String × Sidecar) → Store → Store
unfolding index_add read_metadata
load [] s = s
load ((name, file) ∷ files) s = elim (read_metadata file.content s.bins) [
  | ignored ↦ load files s
  | unlinked ↦ load files (record s { sidecars = Dict.pop name s.sidecars })
  | found r ↦ load files (record s {
    records = Dict.put r.state_token r s.records;
    tokens_by_item_id = index_add r.item_id r.state_token s.tokens_by_item_id;
  })
]

-- A store that has not read its directory.
abbrev pub opened : ℕ → ℤ → Dict String Bin → Dict String Sidecar → Store
opened ttl max_bytes bins sidecars = record {
  ttl = ttl;
  max_bytes = max_bytes;
  records = [];
  tokens_by_item_id = [];
  pinned = [];
  bins = bins;
  sidecars = sidecars;
}

-- __init__ on the directory that an earlier store left; a `ttl_seconds` that is not positive and a
-- `max_bytes` below -1 are refused.
unfoldable pub restart : ℕ → ℤ → Dict String Bin → Dict String Sidecar → Option Store
unfolding load
restart ttl max_bytes bins sidecars =
    if leb ttl 0
    then none
    else (if below_minus_one max_bytes
        then none
        else some (load sidecars (opened ttl max_bytes bins sidecars)))
