-- ===== src/Worker/Verify/Accepted.antt =====
-- When `verify_complete_proof` accepts.
use mathlib.Core.List.{zip}
use mathlib.Core.Path.{subst}
use kimina_lean_server.Base.{
  String, String_discrete, true, false, not, ◌||◌, ◌≡◌, ◌↔◌, refl, ap, ◌∙◌, sym, inl, inr, List, [],
  ◌∷◌, keep, mem, any, All, set_of, Bool-cases, arith,
}
use kimina_lean_server.Worker.{ExecMessage, Try, returned, raised}
use kimina_lean_server.Worker.Axioms.{mentions_sorry, extract_axioms}
use kimina_lean_server.Worker.Verify.{
  is_sorry_kind, accepted, RawMessage, is_sorry, is_error, insert_sorted, sorted, disallowed_axioms,
  all_messages, exec_messages, compiled_text, is_nonempty, judge, verify_answer,
  verify_complete_proof,
}

mem-set_of :
    (a : String) (xs : List String)
    → mem String_discrete a (set_of String_discrete xs) ≡ mem String_discrete a xs
unfolding mem set_of
mem-set_of a [] = refl
mem-set_of a (x ∷ xs) = ground (arith, mem-set_of a xs)

sorted-nonempty : (names : List String) → is_nonempty (sorted names) ≡ is_nonempty names
unfolding sorted insert_sorted
sorted-nonempty [] = refl
sorted-nonempty (name ∷ names) = go (sorted names)
  where
    go : (others : List String) → is_nonempty (insert_sorted name others) ≡ true
    go [] = refl
    go (other ∷ others) = ground arith

-- Each name of the first list is in the second.
abbrev pub IsWithin : List String → List String → Type 0
IsWithin names allowed =
    (name : String)
    → mem String_discrete name names ≡ true
    → mem String_discrete name allowed ≡ true

keep-IsWithin :
    (allowed names : List String)
    → (is_nonempty (keep (λ name. not (mem String_discrete name allowed)) names) ≡ false)
      ↔ IsWithin names allowed
unfolding keep mem
keep-IsWithin allowed names = (to names, from names)
  where
    to :
        (ns : List String)
        → is_nonempty (keep (λ name. not (mem String_discrete name allowed)) ns) ≡ false
        → IsWithin ns allowed
    to [] h name k = cc
    to (n ∷ ns) h name k = elim (Bool-cases (mem String_discrete n allowed)) [
      | inl e ↦
          let h' = rw e at h in
          elim (String_discrete n name) [
            | yes p ↦ ap (λ m. mem String_discrete m allowed) (sym p) ∙ e
            | no q ↦ to ns h' name (ground arith)
          ]
      | inr e ↦ let h' = rw e at h in cc
    ]

    from :
        (ns : List String)
        → IsWithin ns allowed
        → is_nonempty (keep (λ name. not (mem String_discrete name allowed)) ns) ≡ false
    from [] h = refl
    from (n ∷ ns) h =
        let e : mem String_discrete n allowed ≡ true = h n (ground arith) in
        let rest = from ns (λ m k. h m (ground arith)) in rw e rest

disallowed_axioms-IsWithin :
    (axioms allowed : List String)
    → (is_nonempty (disallowed_axioms axioms allowed) ≡ false) ↔ IsWithin axioms allowed
unfolding disallowed_axioms
disallowed_axioms-IsWithin axioms allowed =
    let names = set_of String_discrete axioms in
    let k = keep-IsWithin allowed names in
    let e = sorted-nonempty (keep (λ name. not (mem String_discrete name allowed)) names) in
    (
      λ h name m. k.0 (sym e ∙ h) name (mem-set_of name axioms ∙ m),
      λ h. e ∙ k.1 (λ name m. h name (sym (mem-set_of name axioms) ∙ m)),
    )

-- `payload_to_exec_messages` makes exactly one message of it, as of every object with `data`.
abbrev pub IsSingle : RawMessage → Type 0
IsSingle raw = (m : ExecMessage) × (raw.execs ≡ m ∷ [])

-- A message that reports neither an error nor a `sorry`.
abbrev pub IsClean : RawMessage → Type 0
IsClean raw =
    All (λ m. (is_error m ≡ false) × (mentions_sorry m ≡ false)) raw.execs
    × (is_sorry_kind raw.kind ≡ false)

IsClean-iff :
    (raw : List RawMessage)
    → All IsSingle raw
    → ((any is_error (exec_messages raw) || any is_sorry (zip raw (exec_messages raw))) ≡ false)
      ↔ All IsClean raw
unfolding zip
IsClean-iff raw single = (to raw single, from raw single)
  where
    to :
        (rs : List RawMessage)
        → All IsSingle rs
        → (any is_error (exec_messages rs) || any is_sorry (zip rs (exec_messages rs))) ≡ false
        → All IsClean rs
    to [] s h = tt
    to (r ∷ rs) ((m, e), s) h =
        let h' = rw e at h in
        let ih = to rs s in
        (rw e (((ground arith, ground arith), tt), ground arith), ih (ground arith))

    from :
        (rs : List RawMessage)
        → All IsSingle rs
        → All IsClean rs
        → (any is_error (exec_messages rs) || any is_sorry (zip rs (exec_messages rs))) ≡ false
    from [] s h = refl
    from (r ∷ rs) ((m, e), s) (h, hs) =
        let ((no_error, no_sorry), _) = rw e at h.0 in rw e (ground (arith, from rs s hs))

-- The conditions of acceptance, on what was printed.
abbrev pub IsAcceptable : List RawMessage → List String → Type 0
IsAcceptable raw allowed = All IsClean raw × IsWithin (extract_axioms (exec_messages raw)) allowed

judge-accepted :
    (raw : List RawMessage) (allowed : List String)
    → All IsSingle raw
    → ((judge raw allowed).status ≡ accepted) ↔ IsAcceptable raw allowed
unfolding judge verify_answer
judge-accepted raw allowed single =
    let c = IsClean-iff raw single in
    let d = disallowed_axioms-IsWithin (extract_axioms (exec_messages raw)) allowed in
    (λ h. (c.0 (ground arith), d.0 (ground arith)), λ h. ground (arith, c.1 h.0, d.1 h.1))

-- If each message that a compilation returns is an object of which exactly one message is made, as
-- those of PyPantograph are, a proof is accepted exactly if its compilation raised no exception, no
-- message of it is an error, mentions `sorry` or is of its kind, and all the axioms that were read
-- from the messages are allowed.
pub verify_complete_proof-accepted :
    (compile : String → Try (List (List RawMessage))) (code theorem_name : String)
    (allowed : List String)
    → ((text : String) (units : List (List RawMessage))
        → compile text ≡ returned units
        → All IsSingle (all_messages units))
    → ((verify_complete_proof compile code theorem_name allowed).status ≡ accepted) ↔ (
        (units : List (List RawMessage)) × (compile (compiled_text code theorem_name)
          ≡ returned units)
        × IsAcceptable (all_messages units) allowed)
unfolding verify_complete_proof verify_answer
verify_complete_proof-accepted compile code theorem_name allowed single =
    go (compile (compiled_text code theorem_name)) refl
  where
    go :
        (r : Try (List (List RawMessage)))
        → compile (compiled_text code theorem_name) ≡ r
        → ((verify_complete_proof compile code theorem_name allowed).status ≡ accepted) ↔ (
            (units : List (List RawMessage)) × (compile (compiled_text code theorem_name)
              ≡ returned units)
            × IsAcceptable (all_messages units) allowed)
    go (raised messages) e = rw (e, verify_complete_proof) (λ h. cc, λ h. cc)
    go (returned units) e =
        let j = judge-accepted (all_messages units) allowed (single _ units e) in
        rw (e, verify_complete_proof) (λ h. (units, refl, j.0 h), λ h. j.1 (same_units h.0 h.1 h.2))
      where
        same_units :
            (us : List (List RawMessage))
            → returned units ≡ returned us
            → IsAcceptable (all_messages us) allowed
            → IsAcceptable (all_messages units) allowed
        same_units us p h =
            let q : us ≡ units = cc in subst (λ x. IsAcceptable (all_messages x) allowed) q h
