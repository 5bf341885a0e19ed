-- ===== src/Features/Targets.antt =====
-- The sets of targets of interaction.go, whatever the order in which they were filled.
use ghost_trace.Prelude.{
  suc, ◌≡◌, [], ◌∷◌, length, true, arith, refl, ◌∙◌, ◌==◌, string_comparable, if◌then◌else◌, String,
}
use ghost_trace.Prelude.Dict.{Dict, contains, insert}
use ghost_trace.Features.Counters.{remember}

abbrev pub Targets : Type 0
Targets = Dict String (Unit {0})

-- The same set of targets, in any order.
pub record SameSet (a b : Targets) : Type 0 where
  pub members : (t : String) → contains t a ≡ contains t b
  pub size : length a ≡ length b

pub length-insert :
    (t : String) (m : Targets)
    → length (insert t tt m) ≡ (if contains t m then length m else suc (length m))
unfolding insert contains
length-insert t [] = refl
length-insert t ((j, u) ∷ m) = ground (arith, length-insert t m)

pub contains-insert :
    (t j : String) (m : Targets)
    → contains j (insert t tt m) ≡ (if t == j then true else contains j m)
unfolding insert contains
contains-insert t j [] = refl
contains-insert t j ((i, u) ∷ m) = ground (
  arith,
  string_comparable.same_iff i t,
  string_comparable.same_iff i j,
  string_comparable.same_iff t j,
  contains-insert t j m,
)

pub remember_nothing : (m : Targets) → remember "" m ≡ m
unfolding remember
remember_nothing m = refl

pub contains-remember :
    (t j : String) (m : Targets)
    → contains j (remember t m)
      ≡ (if t == "" then contains j m else if t == j then true else contains j m)
unfolding remember
contains-remember t j m = ground (arith, contains-insert t j m)

pub length-remember :
    (t : String) (m : Targets)
    → length (remember t m)
      ≡ (if t == "" then length m else if contains t m then length m else suc (length m))
unfolding remember
length-remember t m = ground (arith, length-insert t m)

pub remember-SameSet :
    (t : String) (a b : Targets) → SameSet a b → SameSet (remember t a) (remember t b)
remember-SameSet t a b s = record {
  members = λ j. ground (arith, s.members j, contains-remember t j a, contains-remember t j b);
  size = ground (arith, s.members t, s.size, length-remember t a, length-remember t b);
}

pub remember_comm :
    (s t : String) (m : Targets) → SameSet (remember s (remember t m)) (remember t (remember s m))
remember_comm s t m = record {
  members = λ j. ground (
    arith,
    contains-remember s j (remember t m),
    contains-remember t j m,
    contains-remember t j (remember s m),
    contains-remember s j m,
  );
  size = ground (
    arith,
    string_comparable.same_iff s t,
    string_comparable.same_iff t s,
    length-remember s (remember t m),
    length-remember t m,
    length-remember t (remember s m),
    length-remember s m,
    contains-remember s t m,
    contains-remember t s m,
  );
}

pub SameSet-refl : (m : Targets) → SameSet m m
SameSet-refl m = record { members = λ t. refl; size = refl }

pub SameSet-trans : (a b c : Targets) → SameSet a b → SameSet b c → SameSet a c
SameSet-trans a b c h g = record {
  members = λ t. h.members t ∙ g.members t;
  size = h.size ∙ g.size;
}
