-- ===== src/Prelude/Text.antt =====
-- Text as its bytes, where the program builds it or walks it, and splitting it at a separator.
use Prim.Native.Char.{code}
use Prim.Native.Nat.{ℕ}
use Prim.Native.String.{String}
use mathlib.Core.Path.{◌≡◌, refl}
use mathlib.Core.Logic.{◌≢◌}
use mathlib.Core.List.{List, [], ◌∷◌, ◌++◌}
use native.Mathlib.Omega.{arith}
use ghost_trace.Prelude.Tests.{if◌then◌else◌, ◌==◌, ℕ_comparable}
use ghost_trace.Prelude.Lists.{All}

abbrev pub Text : Type 0
Text = List ℕ

-- The bytes of a text in ASCII.
abbrev pub codes : String → Text
codes String.[] = []
codes (String.◌∷◌ c s) = code c ∷ codes s

abbrev pub Lacks : ℕ → Text → Type 0
Lacks d s = All (λ c. c ≢ d) s

abbrev cons_head : ℕ → List Text → List Text
cons_head c [] = (c ∷ []) ∷ []
cons_head c (t ∷ ts) = (c ∷ t) ∷ ts

-- The parts of a text between the separators.
unfoldable pub split_on : ℕ → Text → List Text
split_on d [] = [] ∷ []
split_on d (c ∷ cs) = if c == d then [] ∷ split_on d cs else cons_head c (split_on d cs)

pub split_on-Lacks : (d : ℕ) (s : Text) → Lacks d s → split_on d s ≡ s ∷ []
unfolding split_on
split_on-Lacks d [] h = refl
split_on-Lacks d (c ∷ cs) h = ground (arith, split_on-Lacks d cs h.1)

pub split_on-append :
    (d : ℕ) (s rest : Text) → Lacks d s → split_on d (s ++ (d ∷ rest)) ≡ s ∷ split_on d rest
unfolding split_on
split_on-append d [] rest h = ground arith
split_on-append d (c ∷ cs) rest h = ground (arith, split_on-append d cs rest h.1)
