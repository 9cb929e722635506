-- ===== src/Prelude/Text.antt =====
-- Strings of the source: `trim().length === 0`, and a number in decimal.
use elder_interview_ai.Prelude.Tests.{if◌then◌else◌, ltb, leb, eqb, or_else}
use elder_interview_ai.Prelude.Lists.{get_elem?, all}
use Prim.Native.Nat.{ℕ, zero, suc, ◌/◌, ◌%◌, ◌<◌}
use Prim.Native.Char.{code}
use Prim.Native.String
use Prim.Native.String.append
use Prim.Native.String.{String}
use mathlib.Core.Path.{◌≡◌, refl, ap, ◌∙◌}
use mathlib.Core.Bool.{Bool, true, false, ◌&&◌, ◌||◌}
use mathlib.Core.List.{List, [], ◌∷◌}
use native.Mathlib.Omega.{arith}

-- The code points of a text.
abbrev pub codes : String → List ℕ
codes String.[] = []
codes (String.◌∷◌ c s) = code c ∷ codes s

-- What `trim` removes: white space and line terminators.
unfoldable pub is_space : ℕ → Bool
is_space c =
    (leb 9 c && leb c 13)
    || eqb c 32
    || eqb c 160
    || eqb c 0x1680
    || (leb 0x2000 c && leb c 0x200a)
    || eqb c 0x2028
    || eqb c 0x2029
    || eqb c 0x202f
    || eqb c 0x205f
    || eqb c 0x3000
    || eqb c 0xfeff

-- `value.trim().length === 0`
unfoldable pub is_blank : String → Bool
is_blank s = all is_space (codes s)

infixl 65 ◌^^◌
-- `+` on strings.
abbrev pub ◌^^◌ : String → String → String
s ^^ t = String.◌++◌ s t

digit_texts : List String
digit_texts = "0" ∷ "1" ∷ "2" ∷ "3" ∷ "4" ∷ "5" ∷ "6" ∷ "7" ∷ "8" ∷ "9" ∷ []

decimal_from : ℕ → ℕ → String
decimal_from zero n = ""
decimal_from (suc fuel) n =
    let last : String = or_else (get_elem? digit_texts (n % 10)) "" in
    let rest = decimal_from fuel (n / 10) in if ltb n 10 then last else rest ^^ last

-- `String(n)`; the fuel is enough, since the number falls with each digit.
unfoldable pub decimal : ℕ → String
unfolding decimal_from digit_texts
decimal n = decimal_from (suc n) n

decimal_from-fuel : (f g n : ℕ) → n < f → n < g → decimal_from f n ≡ decimal_from g n
unfolding decimal_from
decimal_from-fuel zero g n p q = absurd (omega arith)
decimal_from-fuel (suc f) zero n p q = absurd (omega arith)
decimal_from-fuel (suc f) (suc g) n p q = ground (arith, decimal_from-fuel f g (n / 10))

-- `text.startsWith(prefix)`
abbrev pub starts_with : String → String → Bool
starts_with String.[] t = true
starts_with (String.◌∷◌ c s) String.[] = false
starts_with (String.◌∷◌ c s) (String.◌∷◌ d t) = eqb (code c) (code d) && starts_with s t

-- A text keeps its beginning when it grows at its end.
pub starts_with-append : (p s t : String) → starts_with p s ≡ true → starts_with p (s ^^ t) ≡ true
starts_with-append String.[] s t h = refl
starts_with-append (String.◌∷◌ c p) String.[] t h = cc
starts_with-append (String.◌∷◌ c p) (String.◌∷◌ d s) t h =
    ap (starts_with (String.◌∷◌ c p)) (append.cons d s t) ∙ ground (arith, starts_with-append p s t)
