-- ===== src/Features/SegmentBounds.antt =====
-- The segments that pointer.go counts, against the points it was given.
use ghost_trace.Prelude.{ℕ, ◌+◌, ◌*◌, ◌%◌, ◌<◌, ◌≤◌, ◌≡◌, List, [], ◌∷◌, length, arith, ◌⊎◌}
use ghost_trace.Prelude.Float.{Float64}
use ghost_trace.Features.{Point, Pointer}
use ghost_trace.Features.Segments.{
  no_pointer, start_segment, current_segment, add_segment, close_segment, turn, extend, place_point,
  tick, first_point, first_gap, next_points, add, pointer_state,
}

-- Calls of `add`, each a gesture with its start.
abbrev pub Gesture : Type 0
Gesture = ℕ × List Point

abbrev pub total_points : List Gesture → ℕ
total_points [] = 0
total_points (g ∷ gs) = length g.1 + total_points gs

module _ {F : Type 0} (fl : Float64 F) where
  -- A segment that was closed took three points of its own.
  abbrev pub IsBounded : Pointer F → Type 0
  IsBounded p = (3 * p.segments + p.cur_count ≤ p.points + 1) × (3 * p.segments ≤ p.points)

  -- What closing the open segment adds to the count.
  current_segment-segments :
      (p : Pointer F)
      → p.segments < 4294967295
      → (3 * (add_segment fl (current_segment fl p) p).segments + 1 ≤ 3 * p.segments + p.cur_count)
        ⊎ ((add_segment fl (current_segment fl p) p).segments ≡ p.segments)
  unfolding current_segment add_segment
  current_segment-segments p small = ground arith

  close_segment-segments :
      (p : Pointer F)
      → p.segments < 4294967295
      → 1 ≤ p.cur_count
      → (3 * (close_segment fl p).segments + 1 ≤ 3 * p.segments + p.cur_count)
        × ((close_segment fl p).points ≡ p.points)
        × ((close_segment fl p).cur_count ≡ 0)
  unfolding close_segment current_segment add_segment
  close_segment-segments p small opened = ground arith

  place_point-IsBounded :
      (gap : ℕ) (pt : Point) (p : Pointer F)
      → p.points < 4294967296
      → 3 * p.segments + p.cur_count ≤ p.points
      → IsBounded (place_point fl gap pt p) × ((place_point fl gap pt p).points ≡ p.points)
  unfolding place_point start_segment turn extend
  place_point-IsBounded gap pt p small h = ground (arith, close_segment-segments p (omega arith))

  next_points-IsBounded :
      (pts : List Point) (p : Pointer F)
      → p.points + length pts < 4294967296
      → IsBounded p
      → IsBounded (next_points fl pts p) × ((next_points fl pts p).points ≡ p.points + length pts)
  unfolding next_points
  next_points-IsBounded [] p small h = (ground arith, omega arith)
  next_points-IsBounded (pt ∷ pts) p small h =
      let ticked : Pointer F = tick fl ((p.last_abs_ms + pt.dt_ms) % 4294967296) p in
      let placed = place_point-IsBounded pt.dt_ms pt ticked (omega arith) (omega arith) in
      let rest =
        next_points-IsBounded pts (place_point fl pt.dt_ms pt ticked) (omega arith) placed.0 in
      (rest.0, omega arith)

  add-IsBounded :
      (start_ms : ℕ) (pts : List Point) (p : Pointer F)
      → p.points + length pts < 4294967296
      → IsBounded p
      → IsBounded (add fl start_ms pts p) × ((add fl start_ms pts p).points ≡ p.points + length pts)
  unfolding add first_point
  add-IsBounded start_ms [] p small h = (ground arith, omega arith)
  add-IsBounded start_ms (pt ∷ pts) p small h =
      let ticked : Pointer F = tick fl start_ms p in
      let gap = first_gap fl start_ms p in
      let placed = place_point-IsBounded gap pt ticked (omega arith) (omega arith) in
      let rest = next_points-IsBounded pts (place_point fl gap pt ticked) (omega arith) placed.0 in
      (rest.0, omega arith)

  unfoldable pub add_all : List Gesture → Pointer F → Pointer F
  add_all [] p = p
  add_all (g ∷ gs) p = add_all gs (add fl g.0 g.1 p)

  add_all-IsBounded :
      (gs : List Gesture) (p : Pointer F)
      → p.points + total_points gs < 4294967296
      → IsBounded p
      → IsBounded (add_all gs p) × ((add_all gs p).points ≡ p.points + total_points gs)
  unfolding add_all
  add_all-IsBounded [] p small h = (ground arith, omega arith)
  add_all-IsBounded (g ∷ gs) p small h =
      let one = add-IsBounded g.0 g.1 p (omega arith) h in
      let rest = add_all-IsBounded gs (add fl g.0 g.1 p) (omega arith) one.0 in
      (rest.0, omega arith)

  -- Over any sequence of gestures that together hold fewer than 2^32 points, from a fresh
  -- accumulator: `State` reports exactly the number of points that were given, and at most one
  -- segment, the open one included, for every three of those points.
  pub pointer_state-segments :
      (gs : List Gesture)
      → total_points gs < 4294967296
      → ((pointer_state fl (add_all gs (no_pointer fl))).points ≡ total_points gs)
        × (3 * (pointer_state fl (add_all gs (no_pointer fl))).segments ≤ total_points gs)
  unfolding pointer_state
  pointer_state-segments gs small =
      let run = add_all-IsBounded gs (no_pointer fl) (omega arith) (ground arith) in
      ground (arith, current_segment-segments (add_all gs (no_pointer fl)) (omega arith))
