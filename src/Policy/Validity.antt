-- ===== src/Policy/Validity.antt =====
-- What validate of libs/policy/calibration.go accepts, whatever the order of the maps.
use ghost_trace.Prelude.{
  ◌<◌, ◌≡◌, refl, subst, arith, false, List, [], ◌∷◌, none, All, String, inl, inr, Bool-cases,
  Option-cases,
}
use mathlib.Core.List.{Permᴰ}
use mathlib.Core.List.Permᴰ
use ghost_trace.Prelude.Float.{Float64}
use ghost_trace.Policy.{Calibration}
use ghost_trace.Policy.Calibrations.{
  Ranging, unit_entries, positive_entries, check_unit, check_positive, validate,
}

All-Permᴰ {ℓ κ} : {A : Type ℓ} (P : A → Type κ) (xs ys : List A) → Permᴰ xs ys → All P xs → All P ys
All-Permᴰ P xs ys Permᴰ.nil h = tt
All-Permᴰ P xs ys (Permᴰ.cons e p) h = (subst P e h.0, All-Permᴰ P _ _ p h.1)
All-Permᴰ P xs ys (Permᴰ.swap e d) h = (subst P d h.1.0, (subst P e h.0, h.1.1))
All-Permᴰ P xs ys (Permᴰ.trans p q) h = All-Permᴰ P _ _ q (All-Permᴰ P _ _ p h)

-- A range over a map meets every entry once.
pub record IsRanging {F : Type 0} (r : Ranging F) : Type 0 where
  pub unit_all : (xs : List (String × F)) → Permᴰ (r.unit xs) xs
  pub positive_all : (xs : List (String × F)) → Permᴰ (r.positive xs) xs

module _ {F : Type 0} (fl : Float64 F) where
  abbrev pub IsFraction : String × F → Type 0
  IsFraction x = (fl.lt x.1 (fl.literal 0 1) ≡ false) × (fl.lt (fl.literal 1 1) x.1 ≡ false)

  abbrev pub IsPositive : String × F → Type 0
  IsPositive x = fl.le x.1 (fl.literal 0 1) ≡ false

  -- Seven thresholds that are not outside [0, 1], six that are not 0 or less, and a channel.
  pub record IsValid (c : Calibration F) : Type 0 where
    pub fractions : All IsFraction (unit_entries c)
    pub positives : All IsPositive (positive_entries c)
    pub a_channel : 0 < c.min_channels_to_block

  check_unit-All : (xs : List (String × F)) → check_unit fl xs ≡ none → All IsFraction xs
  unfolding check_unit
  check_unit-All [] h = tt
  check_unit-All (x ∷ xs) h = elim (Bool-cases (fl.lt x.1 (fl.literal 0 1))) [
    | inl low ↦ absurd (ground (arith, low))
    | inr low ↦ elim (Bool-cases (fl.lt (fl.literal 1 1) x.1)) [
      | inl high ↦ absurd (ground (arith, low, high))
      | inr high ↦ ((low, high), check_unit-All xs (ground (arith, low, high)))
    ]
  ]

  check_positive-All : (xs : List (String × F)) → check_positive fl xs ≡ none → All IsPositive xs
  unfolding check_positive
  check_positive-All [] h = tt
  check_positive-All (x ∷ xs) h = elim (Bool-cases (fl.le x.1 (fl.literal 0 1))) [
    | inl low ↦ absurd (ground (arith, low))
    | inr low ↦ (low, check_positive-All xs (ground (arith, low)))
  ]

  pub validate-IsValid :
      (r : Ranging F) (c : Calibration F) → IsRanging r → validate fl r c ≡ none → IsValid c
  unfolding validate
  validate-IsValid r c all h = elim (Option-cases (check_unit fl (r.unit (unit_entries c)))) [
    | inr (e, bad) ↦ absurd (ground (arith, bad))
    | inl units ↦ elim (Option-cases (check_positive fl (r.positive (positive_entries c)))) [
      | inr (e, bad) ↦ absurd (ground (arith, units, bad))
      | inl positives ↦ record {
        fractions =
            All-Permᴰ IsFraction _ _ (all.unit_all (unit_entries c)) (check_unit-All _ units);
        positives =
            All-Permᴰ IsPositive _ _ (all.positive_all (positive_entries c))
              (check_positive-All _ positives);
        a_channel = ground (arith, units, positives);
      }
    ]
  ]

  All-check_unit : (xs : List (String × F)) → All IsFraction xs → check_unit fl xs ≡ none
  unfolding check_unit
  All-check_unit [] h = refl
  All-check_unit (x ∷ xs) h = let rest = All-check_unit xs h.1 in ground (arith, h.0.0, h.0.1, rest)

  All-check_positive : (xs : List (String × F)) → All IsPositive xs → check_positive fl xs ≡ none
  unfolding check_positive
  All-check_positive [] h = refl
  All-check_positive (x ∷ xs) h = let rest = All-check_positive xs h.1 in ground (arith, h.0, rest)

  pub IsValid-validate :
      (r : Ranging F) (c : Calibration F) → IsRanging r → IsValid c → validate fl r c ≡ none
  unfolding validate
  IsValid-validate r c all v =
      let units : check_unit fl (r.unit (unit_entries c)) ≡ none =
        All-check_unit _
          (All-Permᴰ IsFraction _ _ (Permᴰ.symm (all.unit_all (unit_entries c))) v.fractions) in
      let positives : check_positive fl (r.positive (positive_entries c)) ≡ none =
        All-check_positive _ (
          All-Permᴰ IsPositive _ _ (Permᴰ.symm (all.positive_all (positive_entries c)))
            v.positives) in
      let channels = v.a_channel in ground (arith, units, positives, channels)
