-- ===== src/Prelude/Text.antt =====
-- Python's `str.strip()` on native strings.
use Prim.Native.Nat.{ℕ, zero, suc, ◌/◌, ◌%◌}
use Prim.Native.Char.{Char, code}
use Prim.Native.String.{String, ◌++◌ as text_append}
use mathlib.Core.Path.{◌≡◌, refl, ap, ◌∙◌}
use mathlib.Core.Logic.{inl, inr}
use mathlib.Core.Bool.{Bool, false, ◌||◌, ◌&&◌}
use perovskite_fabrication_w.Prelude.Tests.{leb, ltb, ◌==◌, if◌then◌else◌, Bool-cases}

-- `str.isspace` of one character, by its code point.
pub is_space : ℕ → Bool
is_space c =
    (leb 9 c && leb c 13)
    || (leb 28 c && leb c 32)
    || c == 133
    || c == 160
    || c == 5760
    || (leb 8192 c && leb c 8202)
    || c == 8232
    || c == 8233
    || c == 8239
    || c == 8287
    || c == 12288

lstrip : String → String
unfolding is_space
lstrip String.[] = String.[]
lstrip (String.◌∷◌ c s) = let rest = lstrip s in if is_space (code c) then rest else String.◌∷◌ c s

-- Puts `c` in front, unless it is white and nothing follows.
push_front : Char → String → String
push_front c String.[] = if is_space (code c) then String.[] else String.◌∷◌ c String.[]
push_front c (String.◌∷◌ d s) = String.◌∷◌ c (String.◌∷◌ d s)

rstrip : String → String
unfolding push_front is_space
rstrip String.[] = String.[]
rstrip (String.◌∷◌ c s) = push_front c (rstrip s)

unfoldable pub strip : String → String
unfolding lstrip rstrip
strip s = rstrip (lstrip s)

strip_ends : strip "  MAPbI3 \n" ≡ "MAPbI3"
unfolding strip
strip_ends = refl

-- No white character in front.
abbrev StartsWell : String → Type 0
StartsWell String.[] = Unit
StartsWell (String.◌∷◌ c s) = is_space (code c) ≡ false

lstrip-StartsWell : (s : String) → StartsWell (lstrip s)
unfolding lstrip
lstrip-StartsWell String.[] = tt
lstrip-StartsWell (String.◌∷◌ c s) = elim (Bool-cases (is_space (code c))) [
  | inl e ↦ rw e (lstrip-StartsWell s)
  | inr e ↦ rw e e
]

lstrip_fixed : (s : String) → StartsWell s → lstrip s ≡ s
unfolding lstrip
lstrip_fixed String.[] h = refl
lstrip_fixed (String.◌∷◌ c s) h = rw h

push_front-StartsWell :
    (c : Char) (s : String) → is_space (code c) ≡ false → StartsWell (push_front c s)
unfolding push_front
push_front-StartsWell c String.[] h = rw h h
push_front-StartsWell c (String.◌∷◌ d s) h = h

rstrip-StartsWell : (s : String) → StartsWell s → StartsWell (rstrip s)
unfolding rstrip
rstrip-StartsWell String.[] h = tt
rstrip-StartsWell (String.◌∷◌ c s) h = push_front-StartsWell c (rstrip s) h

rstrip-push_front :
    (c : Char) (s : String) → rstrip s ≡ s → rstrip (push_front c s) ≡ push_front c s
unfolding rstrip
rstrip-push_front c String.[] h = elim (Bool-cases (is_space (code c))) [
  | inl e ↦ rw e
  | inr e ↦ rw e (rw e)
]
rstrip-push_front c (String.◌∷◌ d s) h = ap (push_front c) h

rstrip_idem : (s : String) → rstrip (rstrip s) ≡ rstrip s
unfolding rstrip
rstrip_idem String.[] = refl
rstrip_idem (String.◌∷◌ c s) = rstrip-push_front c (rstrip s) (rstrip_idem s)

-- Stripping a stripped text changes nothing.
pub strip_idem : (s : String) → strip (strip s) ≡ strip s
unfolding strip
strip_idem s =
    ap rstrip
      (lstrip_fixed (rstrip (lstrip s)) (rstrip-StartsWell (lstrip s) (lstrip-StartsWell s)))
    ∙ rstrip_idem (lstrip s)

digit : ℕ → String
digit zero = "0"
digit (suc zero) = "1"
digit (suc (suc zero)) = "2"
digit (suc (suc (suc zero))) = "3"
digit (suc (suc (suc (suc zero)))) = "4"
digit (suc (suc (suc (suc (suc zero))))) = "5"
digit (suc (suc (suc (suc (suc (suc zero)))))) = "6"
digit (suc (suc (suc (suc (suc (suc (suc zero))))))) = "7"
digit (suc (suc (suc (suc (suc (suc (suc (suc zero)))))))) = "8"
digit _ = "9"

decimal_from : ℕ → ℕ → String
decimal_from zero n = ""
decimal_from (suc fuel) n =
    let front = decimal_from fuel (n / 10) in
    if ltb n 10 then digit n else text_append front (digit (n % 10))

-- `str(n)`. A number has at most as many digits as it has units, and one more.
unfoldable pub decimal : ℕ → String
unfolding decimal_from digit
decimal n = decimal_from (suc n) n

decimal_ends : decimal 120 ≡ "120"
unfolding decimal
decimal_ends = refl

-- `text[:size]`
unfoldable pub take : ℕ → String → String
take zero s = ""
take (suc size) String.[] = ""
take (suc size) (String.◌∷◌ c s) = String.◌∷◌ c (take size s)

take_ends : take 5 "P12-03" ≡ "P12-0"
unfolding take
take_ends = refl

-- `len(text)`
unfoldable pub text_length : String → ℕ
text_length String.[] = 0
text_length (String.◌∷◌ c s) = suc (text_length s)
