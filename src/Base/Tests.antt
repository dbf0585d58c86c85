-- ===== src/Base/Tests.antt =====
-- Boolean tests on the native numbers, the conditional, and decidable equality of keys.
use Prim.Native.Nat.{ℕ, compare, Ordering}
use Prim.Native.String.{String}
use mathlib.Core.Path.{◌≡◌, refl}
use mathlib.Core.Logic.{ite, if_pos, if_neg, ◌⊎◌, inl, inr}
use mathlib.Core.Bool.{Bool, true, false}
use mathlib.Core.Option.{Option, none, some}
use native.Mathlib.Decide.{ℕ_discrete}
use text.Mathlib.Text.{◌==◌ as str_eq}
use text.Mathlib.TextEquality.{eq_iff}

abbrev pub ltb : ℕ → ℕ → Bool
ltb a b = elim (compare a b) [ Ordering.lt ↦ true | _ ↦ false ]

abbrev pub leb : ℕ → ℕ → Bool
leb a b = elim (compare a b) [ Ordering.gt ↦ false | _ ↦ true ]

infix 50 ◌==◌
abbrev pub ◌==◌ : ℕ → ℕ → Bool
a == b = elim (compare a b) [ Ordering.eq ↦ true | _ ↦ false ]

infix 1 if◌then◌else◌
abbrev pub if◌then◌else◌ {ℓ} : {A : Type ℓ} → Bool → A → A → A
if true then x else y = x
if false then x else y = y

pub Bool-cases : (b : Bool) → (b ≡ true) ⊎ (b ≡ false)
Bool-cases true = inl refl
Bool-cases false = inr refl

pub Option-cases {ℓ} : {A : Type ℓ} (o : Option A) → (o ≡ none) ⊎ ((a : A) × (o ≡ some a))
Option-cases none = inl refl
Option-cases (some a) = inr (a, refl)

-- Keys of a dictionary: a type whose equality is decided.
pub record Key {ℓ} (A : Type ℓ) : Type ℓ where
  pub dec : Discrete A

decide_text : (s t : String) (b : Bool) → str_eq s t ≡ b → Dec (s ≡ t)
decide_text s t true e = yes ((eq_iff s t).0 e)
decide_text s t false e = no (λ p. differ e ((eq_iff s t).1 p))
  where
    differ : str_eq s t ≡ false → str_eq s t ≡ true → ⊥
    differ e f = cc

unfoldable pub String_discrete : Discrete String
unfolding decide_text
String_discrete s t = decide_text s t (str_eq s t) refl

instance abbrev pub string_key : Key String
string_key = record { dec = String_discrete }

instance abbrev pub nat_key : Key ℕ
nat_key = record { dec = ℕ_discrete }

-- `s == t` on texts.
unfoldable pub same_text : String → String → Bool
unfolding String_discrete
same_text s t = ite (String_discrete s t) true false

pub same_text→eq : (s t : String) → same_text s t ≡ true → s ≡ t
unfolding same_text
same_text→eq s t h = elim (String_discrete s t) [
  | yes p ↦ p
  | no n ↦ let h' = rw (if_neg (String_discrete s t) n) at h in cc
]

pub same_text_refl : (s : String) → same_text s s ≡ true
unfolding same_text
same_text_refl s = rw (if_pos (String_discrete s s) refl)
