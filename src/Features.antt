-- ===== src/Features.antt =====
-- The evidence accumulators of libs/feature: pointer.go, keystroke.go, interaction.go. A uint32
-- counter is a native number reduced modulo 2^32; a float64 is a value of the parameter `F`.
use ghost_trace.Prelude.{ℕ, ◌+◌, ◌%◌, Bool}
use ghost_trace.Prelude.Int.{ℤ}
use ghost_trace.Prelude.Dict.{Dict}
use ghost_trace.Prelude.{String}
pub mod Segments
pub mod Timing
pub mod Counters
mod SegmentBounds
mod Rhythm
mod Rollover
mod Targets
mod Order
mod Tests

-- `n++` on a uint32.
abbrev pub incr : ℕ → ℕ
incr n = (n + 1) % 4294967296

pub record Point : Type 0 where
  pub x : ℤ
  pub y : ℤ
  pub dt_ms : ℕ

pub record Pointer (F : Type 0) : Type 0 where
  pub weighted_straightness : F
  pub total_path_px : F
  pub segments : ℕ
  pub points : ℕ
  pub cur_path_px : F
  pub cur_first : Point
  pub cur_last : Point
  pub cur_count : ℕ
  pub last_abs_ms : ℕ
  pub started : Bool
  pub dir_x : F
  pub dir_y : F
  pub has_dir : Bool

pub record PointerState (F : Type 0) : Type 0 where
  pub straightness : F
  pub segments : ℕ
  pub path_px : F
  pub points : ℕ

pub record Keystroke (F : Type 0) : Type 0 where
  pub flight_count : ℕ
  pub flight_sum : F
  pub flight_sum_sq : F
  pub dwell_count : ℕ
  pub dwell_sum : F
  pub dwell_sum_sq : F
  pub exact_repeats : ℕ
  pub last_flight_ms : ℤ
  pub pending_down : Dict String ℕ
  pub last_up_ms : ℕ
  pub have_last_up : Bool
  pub key_count : ℕ

pub record KeystrokeState (F : Type 0) : Type 0 where
  pub flight_cv : F
  pub dwell_cv : F
  pub mean_dwell_ms : F
  pub exact_repeat_ratio : F
  pub intervals : ℕ
  pub keys : ℕ

pub record Interaction : Type 0 where
  pub scroll_events : ℕ
  pub programmatic_scroll : ℕ
  pub focus_events : ℕ
  pub focus_targets : Dict String (Unit {0})
  pub visibility_changes : ℕ
  pub hidden_periods : ℕ
  pub pastes : ℕ
  pub autofills : ℕ
  pub submits : ℕ
  pub injections : ℕ
  pub injected_fields : Dict String (Unit {0})

pub record InteractionState (F : Type 0) : Type 0 where
  pub programmatic_scroll_ratio : F
  pub scroll_events : ℕ
  pub focus_transitions : ℕ
  pub distinct_focus_targets : ℕ
  pub hidden_periods : ℕ
  pub pastes : ℕ
  pub autofills : ℕ
  pub injections : ℕ
  pub injected_fields : ℕ
