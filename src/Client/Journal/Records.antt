-- ===== src/Client/Journal/Records.antt =====
-- What `get` finds after `put`.
use kimina_lean_server.Base.{ℕ, String, ◌≡◌, ◌≢◌, refl, some, string_key, nat_key}
use kimina_lean_server.Base.Dict
use kimina_lean_server.Base.Dict.{get-put_self, get-put_ne}
use kimina_lean_server.Client.Journal.{MicrobatchRecord, object, File, read, or_empty, get, put}

module _ {Item Result : Type 0} where
  pub get-put :
      (call_id : String) (n : ℕ) (r : MicrobatchRecord Item Result) (file : File Item Result)
      → get call_id n (put call_id n r file) ≡ some r
  unfolding get put
  get-put call_id n r file =
      let raw = read file in
      let entries = or_empty (Dict.get call_id raw) in
      rw
        (
          get-put_self call_id (Dict.put n (object r) entries) raw,
          get-put_self n (object r) entries,
        )
        refl

  pub get-put_other :
      (call_id : String) (n m : ℕ) (r : MicrobatchRecord Item Result) (file : File Item Result)
      → n ≢ m
      → get call_id m (put call_id n r file) ≡ get call_id m file
  unfolding get put
  get-put_other call_id n m r file h =
      let raw = read file in
      let entries = or_empty (Dict.get call_id raw) in
      rw
        (
          get-put_self call_id (Dict.put n (object r) entries) raw,
          get-put_ne n m (object r) entries h,
        )
        refl

  -- The calls of other identifiers keep their records.
  pub get-put_call :
      (call_id other_id : String) (n m : ℕ) (r : MicrobatchRecord Item Result)
      (file : File Item Result)
      → call_id ≢ other_id
      → get other_id m (put call_id n r file) ≡ get other_id m file
  unfolding get put
  get-put_call call_id other_id n m r file h =
      let raw = read file in
      let entries = or_empty (Dict.get call_id raw) in
      rw (get-put_ne call_id other_id (Dict.put n (object r) entries) raw h) refl
