-- ===== src/Features/Segments.antt =====
-- pointer.go: segments of the pointer's path and their straightness.
use ghost_trace.Prelude.{
  ℕ, ◌+◌, ◌-◌, ◌%◌, Bool, true, false, List, [], ◌∷◌, ltb, eqb, ◌&&◌, ◌||◌, Option, none, some,
  if◌then◌else◌,
}
use ghost_trace.Prelude.Int.{ℤ, pos, ◌-ℤ◌, wrap_int32}
use ghost_trace.Prelude.Float.{Float64}
use ghost_trace.Features.{Point, Pointer, PointerState, incr}

abbrev pub segment_gap_ms : ℕ
segment_gap_ms = 300

abbrev pub min_segment_points : ℕ
min_segment_points = 4

module _ {F : Type 0} (fl : Float64 F) where
  abbrev pub no_pointer : Pointer F
  no_pointer = record {
    weighted_straightness = fl.literal 0 1;
    total_path_px = fl.literal 0 1;
    segments = 0;
    points = 0;
    cur_path_px = fl.literal 0 1;
    cur_first = record { x = pos 0; y = pos 0; dt_ms = 0 };
    cur_last = record { x = pos 0; y = pos 0; dt_ms = 0 };
    cur_count = 0;
    last_abs_ms = 0;
    started = false;
    dir_x = fl.literal 0 1;
    dir_y = fl.literal 0 1;
    has_dir = false;
  }

  -- `float64(b - a)` on two int32 coordinates.
  abbrev pub delta : ℤ → ℤ → F
  delta a b = fl.of_int (wrap_int32 (b -ℤ a))

  unfoldable pub dist : Point → Point → F
  dist a b = fl.hypot (delta a.x b.x) (delta a.y b.y)

  unfoldable pub turn_angle : F → F → F → F → F
  turn_angle ax ay bx by =
      if fl.eq na (fl.literal 0 1) || fl.eq nb (fl.literal 0 1)
      then fl.literal 0 1
      else fl.acos (
          if fl.lt (fl.literal 1 1) cos
          then fl.literal 1 1
          else if fl.lt cos (fl.sub (fl.literal 0 1) (fl.literal 1 1))
          then fl.sub (fl.literal 0 1) (fl.literal 1 1)
          else cos)
    where
      na : F
      na = fl.hypot ax ay

      nb : F
      nb = fl.hypot bx by

      cos : F
      cos = fl.div (fl.add (fl.mul ax bx) (fl.mul ay by)) (fl.mul na nb)

  unfoldable pub start_segment : Point → Pointer F → Pointer F
  start_segment pt p = record p {
    cur_first = pt;
    cur_last = pt;
    cur_path_px = fl.literal 0 1;
    cur_count = 1;
    has_dir = false;
  }

  -- The open segment's straightness and length, when it is long enough to count.
  unfoldable pub current_segment : Pointer F → Option (F × F)
  current_segment p =
      if ltb p.cur_count min_segment_points || fl.lt p.cur_path_px (fl.literal 40 1)
      then none
      else some (if fl.lt (fl.literal 1 1) s then fl.literal 1 1 else s, p.cur_path_px)
    where
      s : F
      s = fl.div (dist p.cur_first p.cur_last) p.cur_path_px

  unfoldable pub add_segment : Option (F × F) → Pointer F → Pointer F
  add_segment none p = p
  add_segment (some (s, l)) p = record p {
    weighted_straightness = fl.add p.weighted_straightness (fl.mul s l);
    total_path_px = fl.add p.total_path_px l;
    segments = incr p.segments;
  }

  unfoldable pub close_segment : Pointer F → Pointer F
  close_segment p = record (add_segment (current_segment p) p) {
    cur_count = 0;
    cur_path_px = fl.literal 0 1;
  }

  -- The point that ends a leg with a turn: the corner belongs to both legs.
  unfoldable pub turn : F → Point → Pointer F → Pointer F
  turn step_len pt p = record (start_segment p.cur_last (close_segment p)) {
    cur_path_px = step_len;
    cur_last = pt;
    cur_count = 2;
    dir_x = delta p.cur_last.x pt.x;
    dir_y = delta p.cur_last.y pt.y;
    has_dir = true;
  }

  unfoldable pub extend : F → Point → Pointer F → Pointer F
  extend step_len pt p = record headed {
    cur_path_px = fl.add p.cur_path_px step_len;
    cur_last = pt;
    cur_count = p.cur_count + 1;
  }
    where
      headed : Pointer F
      headed =
          if fl.le (fl.literal 4 1) step_len
          then record p {
            dir_x = delta p.cur_last.x pt.x;
            dir_y = delta p.cur_last.y pt.y;
            has_dir = true;
          }
          else p

  -- Whether a step turns by more than 60 degrees.
  abbrev pub turns : F → Point → Pointer F → Bool
  turns step_len pt p =
      p.has_dir
      && fl.le (fl.literal 4 1) step_len
      && fl.lt (fl.pi_over 3)
          (turn_angle p.dir_x p.dir_y (delta p.cur_last.x pt.x) (delta p.cur_last.y pt.y))

  unfoldable pub place_point : ℕ → Point → Pointer F → Pointer F
  place_point gap pt p =
      if eqb p.cur_count 0
      then start_segment pt p
      else if ltb segment_gap_ms gap
      then start_segment pt (close_segment p)
      else if turns (dist p.cur_last pt) pt p
      then turn (dist p.cur_last pt) pt p
      else extend (dist p.cur_last pt) pt p

  -- The counter and the clock advance before the point is placed.
  abbrev pub tick : ℕ → Pointer F → Pointer F
  tick at p = record p { points = incr p.points; last_abs_ms = at; started = true }

  -- The pause before a gesture's first point.
  abbrev pub first_gap : ℕ → Pointer F → ℕ
  first_gap start_ms p =
      if p.started && ltb p.last_abs_ms start_ms then start_ms - p.last_abs_ms else 0

  unfoldable pub first_point : ℕ → Point → Pointer F → Pointer F
  first_point start_ms pt p = place_point (first_gap start_ms p) pt (tick start_ms p)

  unfoldable pub next_points : List Point → Pointer F → Pointer F
  next_points [] p = p
  next_points (pt ∷ pts) p =
      next_points pts (place_point pt.dt_ms pt (tick ((p.last_abs_ms + pt.dt_ms) % 4294967296) p))

  unfoldable pub add : ℕ → List Point → Pointer F → Pointer F
  add start_ms [] p = p
  add start_ms (pt ∷ pts) p = next_points pts (first_point start_ms pt p)

  unfoldable pub pointer_state : Pointer F → PointerState F
  pointer_state p = record {
    straightness =
        if fl.lt (fl.literal 0 1) closed.total_path_px
        then fl.div closed.weighted_straightness closed.total_path_px
        else fl.literal 0 1;
    segments = closed.segments;
    path_px = closed.total_path_px;
    points = p.points;
  }
    where
      closed : Pointer F
      closed = add_segment (current_segment p) p
