-- ===== src/Policy/Calibrations.antt =====
-- libs/policy/calibration.go: the calibration that is active, and what may replace it. The JSON
-- decoder, the JSON of a calibration and SHA-256 are parameters, and so is the order in which a
-- `range` over a map goes.
use ghost_trace.Prelude.{
  ℕ, Bool, List, [], ◌∷◌, ◌++◌, Option, none, some, String, ◌==◌, ℕ_comparable, bytes_comparable,
  ◌||◌, ◌⊎◌, inl, inr, ltb, if◌then◌else◌,
}
use ghost_trace.Prelude.Text.{Text, codes}
use ghost_trace.Prelude.Float.{Float64}
use ghost_trace.Canonical.{Bytes, hash_hex}
use ghost_trace.Policy.{Calibration}

pub data Invalid (F : Type 0) : Type 0 where
  outside_unit : String → F → Invalid F
  not_positive : String → F → Invalid F
  no_channel : ℕ → Invalid F

pub data LoadError (F : Type 0) : Type 0 where
  unreadable : LoadError F
  not_decoded : LoadError F
  trailing_content : LoadError F
  invalid : Invalid F → LoadError F

-- The order in which one call of validate meets the entries of its two maps.
pub record Ranging (F : Type 0) : Type 0 where
  pub unit : List (String × F) → List (String × F)
  pub positive : List (String × F) → List (String × F)

-- What the package keeps in `cal` and `Ref`.
pub record Active (F : Type 0) : Type 0 where
  pub cal : Calibration F
  pub ref : Text

abbrev pub unit_entries : {F : Type 0} → Calibration F → List (String × F)
unit_entries c =
    ("straightness_floor", c.straightness_floor)
    ∷ ("straightness_ceil", c.straightness_ceil)
    ∷ ("identical_interval_ratio", c.identical_interval_ratio)
    ∷ ("min_confidence_to_challenge", c.min_confidence_to_challenge)
    ∷ ("min_confidence_to_block", c.min_confidence_to_block)
    ∷ ("score_to_challenge", c.score_to_challenge)
    ∷ ("score_to_block", c.score_to_block)
    ∷ []

abbrev pub positive_entries : {F : Type 0} → Calibration F → List (String × F)
positive_entries c =
    ("flight_cv_floor", c.flight_cv_floor)
    ∷ ("flight_cv_ceil", c.flight_cv_ceil)
    ∷ ("dwell_absent_ms", c.dwell_absent_ms)
    ∷ ("confidence_segments", c.confidence_segments)
    ∷ ("confidence_path_px", c.confidence_path_px)
    ∷ ("confidence_intervals", c.confidence_intervals)
    ∷ []

-- What follows the last byte `sep` of a text, if it has one.
unfoldable pub after_last : ℕ → Text → Option Text
after_last sep [] = none
after_last sep (c ∷ cs) = elim (after_last sep cs) [
  | some t ↦ some t
  | none ↦ if c == sep then some cs else none
]

unfoldable pub last_element : Text → Text
unfolding after_last
last_element path = elim (after_last b'/' path) [ some t ↦ t | none ↦ path ]

unfoldable pub strip_slashes : Text → Text
strip_slashes [] = []
strip_slashes (c ∷ cs) = elim (strip_slashes cs) [
  | [] ↦ if c == b'/' then [] else c ∷ []
  | d ∷ ds ↦ c ∷ d ∷ ds
]

-- `filepath.Base`
unfoldable pub base : Text → Text
unfolding strip_slashes last_element
base [] = codes "."
base (c ∷ cs) = elim (strip_slashes (c ∷ cs)) [ [] ↦ codes "/" | d ∷ ds ↦ last_element (d ∷ ds) ]

-- `filepath.Ext`
unfoldable pub ext : Text → Text
unfolding last_element after_last
ext path = elim (after_last b'.' (last_element path)) [ some t ↦ b'.' ∷ t | none ↦ [] ]

-- `strings.TrimSuffix`
unfoldable pub trim_suffix : Text → Text → Text
trim_suffix suffix [] = []
trim_suffix suffix (c ∷ cs) = if (c ∷ cs) == suffix then [] else (c ∷ trim_suffix suffix cs)

abbrev pub ref_base : Text
ref_base = codes "multi-signal-v1"

abbrev pub first_four : Bytes → Bytes
first_four (a ∷ b ∷ c ∷ d ∷ rest) = a ∷ b ∷ c ∷ d ∷ []
first_four short = short

module _ {F : Type 0} (fl : Float64 F) where
  unfoldable pub check_unit : List (String × F) → Option (Invalid F)
  check_unit [] = none
  check_unit ((k, v) ∷ rest) =
      if fl.lt v (fl.literal 0 1) || fl.lt (fl.literal 1 1) v
      then some (outside_unit k v)
      else check_unit rest

  unfoldable pub check_positive : List (String × F) → Option (Invalid F)
  check_positive [] = none
  check_positive ((k, v) ∷ rest) =
      if fl.le v (fl.literal 0 1) then some (not_positive k v) else check_positive rest

  -- `none` is nil. A number of channels below 0, which is refused as 0 is, is 0.
  unfoldable pub validate : Ranging F → Calibration F → Option (Invalid F)
  unfolding check_unit check_positive
  validate r c = elim (check_unit (r.unit (unit_entries c))) [
    | some e ↦ some e
    | none ↦ elim (check_positive (r.positive (positive_entries c))) [
      | some e ↦ some e
      | none ↦
          if ltb c.min_channels_to_block 1 then some (no_channel c.min_channels_to_block) else none
    ]
  ]

  -- `decode` is dec.Decode with unknown fields disallowed, and dec.More after it.
  module _ (decode : Bytes → Option (Calibration F × Bool)) (to_json : Calibration F → Bytes)
      (sum256 : Bytes → Bytes) where
    unfoldable pub parse_calibration : Ranging F → Bytes → LoadError F ⊎ Calibration F
    unfolding validate
    parse_calibration r raw = elim (decode raw) [
      | none ↦ inl not_decoded
      | some (c, more) ↦
          if more
          then inl trailing_content
          else elim (validate r c) [ some e ↦ inl (invalid e) | none ↦ inr c ]
    ]

    unfoldable pub derive_ref : Text → Calibration F → Text
    derive_ref name c =
        ref_base ++ (b'+' ∷ name ++ (b'@' ∷ hash_hex (first_four (sum256 (to_json c)))))

    -- `none` is the panic on an embedded calibration that does not parse.
    unfoldable pub init : Ranging F → Bytes → Option (Active F)
    unfolding parse_calibration
    init r embedded = elim (parse_calibration r embedded) [
      | inl e ↦ none
      | inr c ↦ some (record { cal = c; ref = derive_ref (codes "default") c })
    ]

    -- The bytes are what os.ReadFile answers.
    unfoldable pub load_calibration :
        Ranging F → Text → Option Bytes → Active F → Active F × Option (LoadError F)
    unfolding parse_calibration base ext trim_suffix
    load_calibration r path none a = (a, some unreadable)
    load_calibration r path (some raw) a = elim (parse_calibration r raw) [
      | inl e ↦ (a, some e)
      | inr c ↦ (record { cal = c; ref = derive_ref (trim_suffix (ext path) (base path)) c }, none)
    ]
