-- ===== src/Client/Journal.antt =====
-- packages/lean-client/lean_client/exec_journal.py: `ExecMicrobatchJournal`. The state is the file.
-- `_write` replaces it as a whole, and what `json` writes is read back as it was; `str` of different
-- numbers differs, so that the numbers themselves are the keys. Payloads are the items of a request
-- and the results of a response.
pub mod Records
use kimina_lean_server.Base.{ℕ, String, Option, none, some, List, [], string_key, nat_key}
use kimina_lean_server.Base.Dict
use kimina_lean_server.Base.Dict.{Dict}

-- MicrobatchStatus
pub data MicrobatchStatus : Type 0 where
  pending running complete failed unknown : MicrobatchStatus

-- ExecMicrobatchRecord, without the keys that it is found under
pub record MicrobatchRecord (Item Result : Type 0) : Type 0 where
  pub status : MicrobatchStatus
  pub request_payload : List Item
  pub response_payload : Option (List Result)

-- What stands under a number: an object, or a value that is none.
pub data Entry (Item Result : Type 0) : Type 0 where
  object : MicrobatchRecord Item Result → Entry Item Result
  other : Entry Item Result

abbrev pub Raw : Type 0 → Type 0 → Type 0
Raw Item Result = Dict String (Dict ℕ (Entry Item Result))

-- The file: none, one whose value is no object, or an object.
pub data File (Item Result : Type 0) : Type 0 where
  absent no_object : File Item Result
  contents : Raw Item Result → File Item Result

module _ {Item Result : Type 0} where
  -- _read
  abbrev pub read : File Item Result → Raw Item Result
  read absent = []
  read no_object = []
  read (contents raw) = raw

  abbrev pub or_empty : Option (Dict ℕ (Entry Item Result)) → Dict ℕ (Entry Item Result)
  or_empty none = []
  or_empty (some entries) = entries

  abbrev record_of : Option (Entry Item Result) → Option (MicrobatchRecord Item Result)
  record_of none = none
  record_of (some other) = none
  record_of (some (object r)) = some r

  -- get
  unfoldable pub get : String → ℕ → File Item Result → Option (MicrobatchRecord Item Result)
  get call_id n file = record_of (Dict.get n (or_empty (Dict.get call_id (read file))))

  -- put
  unfoldable pub put :
      String → ℕ → MicrobatchRecord Item Result → File Item Result → File Item Result
  put call_id n r file =
      let raw = read file in
      let entries = or_empty (Dict.get call_id raw) in
      contents (Dict.put call_id (Dict.put n (object r) entries) raw)
