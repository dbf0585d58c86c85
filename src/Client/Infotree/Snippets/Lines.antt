-- ===== src/Client/Infotree/Snippets/Lines.antt =====
-- infotree.py: slices of a line and lines in a row.
use Prim.Native.String.{String}
use kimina_lean_server.Base.{
  ℕ, zero, suc, ◌+◌, ◌≤◌, ◌≡◌, refl, ap, sym, ◌∙◌, Option, none, some, List, ◌-◌, arith,
}
use kimina_lean_server.Base.Text.{append}
use kimina_lean_server.Base.Text.Pieces.{take_text, drop_text, append_assoc, take-drop_text}
use kimina_lean_server.Client.Infotree.Snippets.{after, source_line, lines_between}

pub after-some {ℓ ℓ'} :
    {A : Type ℓ} {B : Type ℓ'} (o : Option A) (f : A → Option B) (b : B)
    → after o f ≡ some b
    → (a : A) × (o ≡ some a) × (f a ≡ some b)
after-some none f b h = cc
after-some (some a) f b h = (a, refl, h)

take_text_empty : (n : ℕ) → take_text n String.[] ≡ String.[]
unfolding take_text
take_text_empty zero = refl
take_text_empty (suc n) = refl

drop_text_empty : (n : ℕ) → drop_text n String.[] ≡ String.[]
unfolding drop_text
drop_text_empty zero = refl
drop_text_empty (suc n) = refl

drop-drop_text : (a m : ℕ) (s : String) → drop_text (a + m) s ≡ drop_text m (drop_text a s)
unfolding drop_text
drop-drop_text zero m s = let e : 0 + m ≡ m = omega arith in ap (λ n. drop_text n s) e
drop-drop_text (suc a) m String.[] = drop_text_empty (suc a + m) ∙ sym (drop_text_empty m)
drop-drop_text (suc a) m (String.◌∷◌ c s) =
    let e : suc a + m ≡ suc (a + m) = omega arith in
    ap (λ n. drop_text n (String.◌∷◌ c s)) e ∙ drop-drop_text a m s

take-take_text :
    (m n : ℕ) (s : String)
    → append (take_text m s) (take_text n (drop_text m s)) ≡ take_text (m + n) s
unfolding take_text drop_text
take-take_text zero n s = let e : n ≡ 0 + n = omega arith in ap (λ k. take_text k s) e
take-take_text (suc m) n String.[] = take_text_empty n ∙ sym (take_text_empty (suc m + n))
take-take_text (suc m) n (String.◌∷◌ c s) =
    let e : suc (m + n) ≡ suc m + n = omega arith in
    ap (String.◌∷◌ c) (take-take_text m n s) ∙ ap (λ n. take_text n (String.◌∷◌ c s)) e

pub after-is {ℓ ℓ'} :
    {A : Type ℓ} {B : Type ℓ'} (o : Option A) (f : A → Option B) (a : A) (r : Option B)
    → o ≡ some a
    → f a ≡ r
    → after o f ≡ r
after-is o f a r e h = ap (λ x. after x f) e ∙ h

-- Two adjacent slices of a line.
pub slices-append :
    (a b c : ℕ) (s : String)
    → a ≤ b
    → b ≤ c
    → append (take_text (b - a) (drop_text a s)) (take_text (c - b) (drop_text b s))
      ≡ take_text (c - a) (drop_text a s)
slices-append a b c s h k =
    let e : b ≡ a + (b - a) = omega arith in
    let f : (b - a) + (c - b) ≡ c - a = omega arith in
    ap (λ n. append (take_text (b - a) (drop_text a s)) (take_text (c - b) (drop_text n s))) e
    ∙ ap (λ t. append (take_text (b - a) (drop_text a s)) (take_text (c - b) t))
        (drop-drop_text a (b - a) s)
    ∙ take-take_text (b - a) (c - b) (drop_text a s)
    ∙ ap (λ n. take_text n (drop_text a s)) f

pub slice-drop :
    (a b : ℕ) (s : String)
    → a ≤ b
    → append (take_text (b - a) (drop_text a s)) (drop_text b s) ≡ drop_text a s
slice-drop a b s h =
    let e : b ≡ a + (b - a) = omega arith in
    ap (λ n. append (take_text (b - a) (drop_text a s)) (drop_text n s)) e
    ∙ ap (append (take_text (b - a) (drop_text a s))) (drop-drop_text a (b - a) s)
    ∙ take-drop_text (b - a) (drop_text a s)

pub slice-take :
    (b c : ℕ) (s : String)
    → b ≤ c
    → append (take_text b s) (take_text (c - b) (drop_text b s)) ≡ take_text c s
slice-take b c s h =
    let f : b + (c - b) ≡ c = omega arith in take-take_text b (c - b) s ∙ ap (λ n. take_text n s) f

pub lines_between-append :
    (lines : List String) (line n k m c : ℕ) (u t v : String)
    → m ≡ line + n
    → c ≡ n + suc k
    → lines_between lines line n ≡ some u
    → source_line lines m ≡ some t
    → lines_between lines (m + 1) k ≡ some v
    → lines_between lines line c ≡ some (append u (append t v))
unfolding lines_between
lines_between-append lines line zero k m c u t v p q f g h =
    let ec : c ≡ suc k = omega arith in
    let em : line ≡ m = omega arith in
    let eu : String.[] ≡ u = cc in
    ap (lines_between lines line) ec
    ∙ after-is (source_line lines line) _ t (some (append u (append t v)))
        (ap (source_line lines) em ∙ g)
        (after-is (lines_between lines (line + 1) k) _ v (some (append u (append t v)))
          (ap (λ i. lines_between lines (i + 1) k) em ∙ h)
          (ap (λ x. some (append x (append t v))) eu))
lines_between-append lines line (suc n) k m c u t v p q f g h =
    let (x, e, f') = after-some (source_line lines line) _ u f in
    let (y, d, f'') = after-some (lines_between lines (line + 1) n) _ u f' in
    let ec : c ≡ suc (n + suc k) = omega arith in
    let eu : append x y ≡ u = cc in
    let rest : lines_between lines (line + 1) (n + suc k) ≡ some (append y (append t v)) =
      lines_between-append lines (line + 1) n k m (n + suc k) y t v (omega arith) refl d g h in
    ap (lines_between lines line) ec
    ∙ after-is (source_line lines line) _ x (some (append u (append t v))) e (
        after-is (lines_between lines (line + 1) (n + suc k)) _ (append y (append t v))
          (some (append u (append t v))) rest
          (ap some (sym (append_assoc x y (append t v)) ∙ ap (λ s. append s (append t v)) eu)))

pub some_eq : {x y : String} → some x ≡ some y → x ≡ y
some_eq e = cc
