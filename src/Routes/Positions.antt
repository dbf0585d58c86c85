-- ===== src/Routes/Positions.antt =====
-- server/routers/exec.py: `_offset_messages`, which moves positions in the body of a snippet to
-- positions in the whole.
use kimina_lean_server.Base.{
  ℕ, ◌+◌, ◌≡◌, refl, sym, ap, ◌∙◌, Option, none, some, Bool-cases, List, [], ◌∷◌, map, leb,
  if◌then◌else◌, arith, inl, inr,
}
use kimina_lean_server.Schemas.{ExecPos, ExecMessage}

abbrev offset_pos : Option ExecPos → ℕ → Option ExecPos
offset_pos none line_offset = none
offset_pos (some p) line_offset = some (record { line = p.line + line_offset; col = p.col })

abbrev offset_message : ℕ → ExecMessage → ExecMessage
offset_message line_offset m = record {
  severity = m.severity;
  text = m.text;
  start_pos = offset_pos m.start_pos line_offset;
  end_pos = offset_pos m.end_pos line_offset;
}

unfoldable pub offset_messages : List ExecMessage → ℕ → List ExecMessage
offset_messages messages line_offset =
    if leb line_offset 0 then messages else map (offset_message line_offset) messages

offset_pos-add :
    (p : Option ExecPos) (a b : ℕ) → offset_pos (offset_pos p a) b ≡ offset_pos p (a + b)
offset_pos-add none a b = refl
offset_pos-add (some p) a b = ap (λ n. some (record { line = n; col = p.col })) (omega arith)

offset_pos-zero : (p : Option ExecPos) → offset_pos p 0 ≡ p
offset_pos-zero none = refl
offset_pos-zero (some p) = ap (λ n. some (record { line = n; col = p.col })) (omega arith)

map_offset-zero : (ms : List ExecMessage) → map (offset_message 0) ms ≡ ms
map_offset-zero [] = refl
map_offset-zero (m ∷ ms) =
    rw (offset_pos-zero m.start_pos, offset_pos-zero m.end_pos, map_offset-zero ms) refl

offset_messages-map :
    (ms : List ExecMessage) (n : ℕ) → offset_messages ms n ≡ map (offset_message n) ms
unfolding offset_messages
offset_messages-map ms n = elim (Bool-cases (leb n 0)) [
  | inl e ↦ let zero_offset : n ≡ 0 = ground arith in rw zero_offset (sym (map_offset-zero ms))
  | inr e ↦ rw e refl
]

map_offset-add :
    (ms : List ExecMessage) (a b : ℕ)
    → map (offset_message b) (map (offset_message a) ms) ≡ map (offset_message (a + b)) ms
map_offset-add [] a b = refl
map_offset-add (m ∷ ms) a b =
    rw (offset_pos-add m.start_pos a b, offset_pos-add m.end_pos a b, map_offset-add ms a b) refl

-- Offsets add up: messages moved by one offset and then by another are those moved by the sum, and
-- an offset of zero, which the code treats apart, moves nothing.
offset_messages-add :
    (ms : List ExecMessage) (a b : ℕ)
    → (offset_messages (offset_messages ms a) b ≡ offset_messages ms (a + b))
      × (offset_messages ms 0 ≡ ms)
offset_messages-add ms a b = (
  rw
      (
        offset_messages-map ms a,
        offset_messages-map ms (a + b),
        offset_messages-map (map (offset_message a) ms) b,
      )
      (map_offset-add ms a b),
  offset_messages-map ms 0 ∙ map_offset-zero ms,
)
