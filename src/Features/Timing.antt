-- ===== src/Features/Timing.antt =====
-- keystroke.go: flight and dwell times of the keys.
use ghost_trace.Prelude.{
  ℕ, ◌-◌, true, false, String, Option, none, some, List, [], ◌∷◌, leb, ltb, ◌==◌, ◌&&◌,
  string_comparable, if◌then◌else◌,
}
use ghost_trace.Prelude.Int.{pos, int_eq}
use ghost_trace.Prelude.Dict.{lookup, insert, erase}
use ghost_trace.Prelude.Float.{Float64}
use ghost_trace.Features.{Keystroke, KeystrokeState, incr}
use Prim.Native.String.{◌++◌ as append, ◌∷◌ as char_cons}
use Prim.Native.Char.{nul}

abbrev pub min_intervals_for_rhythm : ℕ
min_intervals_for_rhythm = 6

-- `class + "\x00" + target`
abbrev pub pending_key : String → String → String
pending_key class target = append class (char_cons nul target)

-- `AddKey`'s arguments.
pub record KeyEvent : Type 0 where
  pub t_ms : ℕ
  pub phase : String
  pub class : String
  pub target : String

module _ {F : Type 0} (fl : Float64 F) where
  abbrev pub no_keystroke : Keystroke F
  no_keystroke = record {
    flight_count = 0;
    flight_sum = fl.literal 0 1;
    flight_sum_sq = fl.literal 0 1;
    dwell_count = 0;
    dwell_sum = fl.literal 0 1;
    dwell_sum_sq = fl.literal 0 1;
    exact_repeats = 0;
    last_flight_ms = pos 0;
    pending_down = [];
    last_up_ms = 0;
    have_last_up = false;
    key_count = 0;
  }

  -- A plausible flight time enters the sums.
  unfoldable pub add_flight : F → Keystroke F → Keystroke F
  add_flight flight k =
      if fl.le flight (fl.literal 2000 1)
      then record k {
        exact_repeats =
            if ltb 0 k.flight_count && int_eq (fl.trunc flight) k.last_flight_ms
            then incr k.exact_repeats
            else k.exact_repeats;
        last_flight_ms = fl.trunc flight;
        flight_count = incr k.flight_count;
        flight_sum = fl.add k.flight_sum flight;
        flight_sum_sq = fl.add k.flight_sum_sq (fl.mul flight flight);
      }
      else k

  unfoldable pub add_dwell : F → Keystroke F → Keystroke F
  add_dwell dwell k =
      if fl.le (fl.literal 1 1) dwell && fl.le dwell (fl.literal 1000 1)
      then record k {
        dwell_count = incr k.dwell_count;
        dwell_sum = fl.add k.dwell_sum dwell;
        dwell_sum_sq = fl.add k.dwell_sum_sq (fl.mul dwell dwell);
      }
      else k

  unfoldable pub key_down : String → ℕ → Keystroke F → Keystroke F
  key_down key t k = record timed { pending_down = insert key t timed.pending_down }
    where
      timed : Keystroke F
      timed =
          if k.have_last_up && leb k.last_up_ms t
          then add_flight (fl.of_int (pos (t - k.last_up_ms))) k
          else k

  -- A release with the press it answers.
  unfoldable pub release : String → ℕ → Option ℕ → Keystroke F → Keystroke F
  release key t none k = k
  release key t (some down_at) k =
      if leb down_at t then record dwelt { pending_down = erase key dwelt.pending_down } else k
    where
      dwelt : Keystroke F
      dwelt = add_dwell (fl.of_int (pos (t - down_at))) k

  unfoldable pub key_up : String → ℕ → Keystroke F → Keystroke F
  key_up key t k = record (release key t (lookup key k.pending_down) k) {
    last_up_ms = t;
    have_last_up = true;
  }

  unfoldable pub add_key : KeyEvent → Keystroke F → Keystroke F
  add_key e k =
      if e.class == "mod"
      then counted
      else if e.phase == "down"
      then key_down (pending_key e.class e.target) e.t_ms counted
      else if e.phase == "up"
      then key_up (pending_key e.class e.target) e.t_ms counted
      else counted
    where
      counted : Keystroke F
      counted = record k { key_count = incr k.key_count }

  unfoldable pub add_keys : List KeyEvent → Keystroke F → Keystroke F
  add_keys [] k = k
  add_keys (e ∷ es) k = add_keys es (add_key e k)

  -- The coefficient of variation from a sum, a sum of squares and a count.
  unfoldable pub cv : F → F → F → F
  cv sum sum_sq n =
      if fl.lt n (fl.literal 2 1)
      then fl.literal 0 1
      else if fl.le mean (fl.literal 0 1)
      then fl.literal 0 1
      else fl.div (fl.sqrt (if fl.lt variance (fl.literal 0 1) then fl.literal 0 1 else variance))
          mean
    where
      mean : F
      mean = fl.div sum n

      variance : F
      variance = fl.sub (fl.div sum_sq n) (fl.mul mean mean)

  unfoldable pub keystroke_state : Keystroke F → KeystrokeState F
  keystroke_state k = record {
    flight_cv =
        if leb min_intervals_for_rhythm k.flight_count
        then cv k.flight_sum k.flight_sum_sq (fl.of_int (pos k.flight_count))
        else fl.literal 0 1;
    dwell_cv =
        if leb min_intervals_for_rhythm k.dwell_count
        then cv k.dwell_sum k.dwell_sum_sq (fl.of_int (pos k.dwell_count))
        else fl.literal 0 1;
    mean_dwell_ms =
        if leb min_intervals_for_rhythm k.dwell_count
        then fl.div k.dwell_sum (fl.of_int (pos k.dwell_count))
        else fl.literal 0 1;
    exact_repeat_ratio =
        if leb min_intervals_for_rhythm k.flight_count
        then fl.div (fl.of_int (pos k.exact_repeats)) (fl.of_int (pos k.flight_count))
        else fl.literal 0 1;
    intervals = k.flight_count;
    keys = k.key_count;
  }
