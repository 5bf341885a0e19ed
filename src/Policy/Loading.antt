-- ===== src/Policy/Loading.antt =====
-- The calibration that is active after the start of a program and any loads.
use ghost_trace.Prelude.{
  ◌≡◌, refl, sym, subst, ap, ◌∙◌, arith, Bool, true, false, List, [], ◌∷◌, Option, none, some, All,
  ◌⊎◌, inl, inr, Option-cases, sum_cases,
}
use ghost_trace.Prelude.Text.{Text, codes}
use ghost_trace.Prelude.Float.{Float64}
use ghost_trace.Canonical.{Bytes}
use ghost_trace.Policy.{Calibration}
use ghost_trace.Policy.Calibrations.{
  LoadError, Ranging, Active, validate, parse_calibration, derive_ref, base, ext, trim_suffix, init,
  load_calibration,
}
use ghost_trace.Policy.Validity.{IsRanging, IsValid, validate-IsValid, IsValid-validate}

module _ {F : Type 0} (fl : Float64 F) (decode : Bytes → Option (Calibration F × Bool))
    (to_json : Calibration F → Bytes) (sum256 : Bytes → Bytes) where
  parse_calibration-IsValid :
      (r : Ranging F) (raw : Bytes) (c : Calibration F)
      → IsRanging r
      → parse_calibration fl decode to_json sum256 r raw ≡ inr c
      → IsValid fl c × (decode raw ≡ some (c, false))
  unfolding parse_calibration
  parse_calibration-IsValid r raw c all h = elim (Option-cases (decode raw)) [
    | inl bad ↦ absurd (ground (arith, bad))
    | inr ((d, true), read) ↦ absurd (ground (arith, read))
    | inr ((d, false), read) ↦ elim (Option-cases (validate fl r d)) [
      | inr (e, bad) ↦ absurd (ground (arith, read, bad))
      | inl good ↦
          let reached : parse_calibration fl decode to_json sum256 r raw ≡ inr d =
            ground (arith, read, good) in
          let same : d ≡ c = accepted d (sym reached ∙ h) in
          (
            subst (IsValid fl) same (validate-IsValid fl r d all good),
            read ∙ ap (λ x. some (x, false)) same,
          )
    ]
  ]
    where
      accepted : (d : Calibration F) → Path (LoadError F ⊎ Calibration F) (inr d) (inr c) → d ≡ c
      accepted d e = ap (λ (x : LoadError F ⊎ Calibration F). elim x [ inl _ ↦ d | inr y ↦ y ]) e

  -- Loads, the first first, each with the name of its file, what reading it answers, and the order
  -- of its maps.
  unfoldable pub loads : List (Ranging F × Text × Option Bytes) → Active F → Active F
  loads [] a = a
  loads ((r, path, raw) ∷ rest) a =
      loads rest (load_calibration fl decode to_json sum256 r path raw a).0

  -- Active calibrations are valid, and their reference is that of their values.
  pub record IsActive (a : Active F) : Type 0 where
    pub valid : IsValid fl a.cal
    pub name : Text
    pub names_values : a.ref ≡ derive_ref fl decode to_json sum256 name a.cal

  init-parsed :
      (r : Ranging F) (embedded : Bytes) (c : Calibration F)
      → parse_calibration fl decode to_json sum256 r embedded ≡ inr c
      → init fl decode to_json sum256 r embedded
        ≡ some (record { cal = c; ref = derive_ref fl decode to_json sum256 (codes "default") c })
  unfolding init derive_ref
  init-parsed r embedded c good = rw (init, good) refl

  load_calibration-parsed :
      (r : Ranging F) (path : Text) (raw : Bytes) (a : Active F) (c : Calibration F)
      → parse_calibration fl decode to_json sum256 r raw ≡ inr c
      → load_calibration fl decode to_json sum256 r path (some raw) a ≡ (
        record {
          cal = c;
          ref = derive_ref fl decode to_json sum256 (trim_suffix (ext path) (base path)) c;
        },
        none,
      )
  unfolding load_calibration derive_ref
  load_calibration-parsed r path raw a c good = rw (load_calibration, good) refl

  load_calibration-refused :
      (r : Ranging F) (path : Text) (raw : Bytes) (a : Active F) (e : LoadError F)
      → parse_calibration fl decode to_json sum256 r raw ≡ inl e
      → load_calibration fl decode to_json sum256 r path (some raw) a ≡ (a, some e)
  unfolding load_calibration
  load_calibration-refused r path raw a e bad = rw (load_calibration, bad) refl

  init-IsActive :
      (r : Ranging F) (embedded : Bytes) (a : Active F)
      → IsRanging r
      → init fl decode to_json sum256 r embedded ≡ some a
      → IsActive a
  unfolding init
  init-IsActive r embedded a all h =
      elim (sum_cases (parse_calibration fl decode to_json sum256 r embedded)) [
        | inl (e, bad) ↦ absurd (ground (arith, bad))
        | inr (c, good) ↦
            subst IsActive (started _ (sym (init-parsed r embedded c good) ∙ h)) (record {
              valid = (parse_calibration-IsValid r embedded c all good).0;
              name = codes "default";
              names_values = refl;
            })
      ]
    where
      started : (b : Active F) → some b ≡ some a → b ≡ a
      started b e = ap (λ (o : Option (Active F)). elim o [ none ↦ b | some x ↦ x ]) e

  load_calibration-IsActive :
      (r : Ranging F) (path : Text) (raw : Option Bytes) (a : Active F)
      → IsRanging r
      → IsActive a
      → IsActive (load_calibration fl decode to_json sum256 r path raw a).0
  unfolding load_calibration
  load_calibration-IsActive r path none a all active = active
  load_calibration-IsActive r path (some raw) a all active =
      elim (sum_cases (parse_calibration fl decode to_json sum256 r raw)) [
        | inl (e, bad) ↦ rw (load_calibration-refused r path raw a e bad) active
        | inr (c, good) ↦ rw (load_calibration-parsed r path raw a c good) (record {
          valid = (parse_calibration-IsValid r raw c all good).0;
          name = trim_suffix (ext path) (base path);
          names_values = refl;
        })
      ]

  loads-IsActive :
      (ls : List (Ranging F × Text × Option Bytes)) (a : Active F)
      → All (λ l. IsRanging l.0) ls
      → IsActive a
      → IsActive (loads ls a)
  unfolding loads
  loads-IsActive [] a all active = active
  loads-IsActive ((r, path, raw) ∷ rest) a all active =
      loads-IsActive rest (load_calibration fl decode to_json sum256 r path raw a).0 all.1
        (load_calibration-IsActive r path raw a all.0 active)

  -- When the embedded calibration parses at the start, then after any loads, of which each may fail
  -- to read, to decode or to validate, the active calibration is valid, and the reference is that of
  -- its values.
  pub init-loads-IsActive :
      (r : Ranging F) (embedded : Bytes) (ls : List (Ranging F × Text × Option Bytes))
      (a : Active F)
      → IsRanging r
      → All (λ l. IsRanging l.0) ls
      → init fl decode to_json sum256 r embedded ≡ some a
      → IsActive (loads ls a)
  init-loads-IsActive r embedded ls a all rest started =
      loads-IsActive ls a rest (init-IsActive r embedded a all started)

  pub load_calibration-accepts :
      (r : Ranging F) (path : Text) (raw : Bytes) (a : Active F) (c : Calibration F)
      → IsRanging r
      → decode raw ≡ some (c, false)
      → IsValid fl c
      → load_calibration fl decode to_json sum256 r path (some raw) a ≡ (
        record {
          cal = c;
          ref = derive_ref fl decode to_json sum256 (trim_suffix (ext path) (base path)) c;
        },
        none,
      )
  unfolding parse_calibration
  load_calibration-accepts r path raw a c all read valid =
      load_calibration-parsed r path raw a c
        (rw (parse_calibration, read, IsValid-validate fl r c all valid) refl)
