-- ===== src/Collector/Start.antt =====
-- The collector's StartSession: start_session.go, `buildSessionStart` of protomap.go and
-- `archiveBestEffort` of app.go for its record.
use ghost_trace.Prelude.{ℕ, Bool, String, Option, none, some, List, [], ◌∷◌, if◌then◌else◌}
use ghost_trace.Prelude.Int.{ℤ, wrap_int32}
use ghost_trace.Prelude.Float.{Float64}
use ghost_trace.Session.{Client, Store, Identity, create}
use ghost_trace.Decision.{Appended}
use ghost_trace.Collector.{to_uint32}
use ghost_trace.Collector.Batch.{DropReason, late, failed, shed}

pub record SessionStart : Type 0 where
  pub tenant_id : String
  pub session_id : String
  pub started_at : ℕ
  pub page_path : String
  pub pointer_type : String
  pub touch : Bool
  pub viewport_w : ℕ
  pub viewport_h : ℕ
  pub tz_offset_min : ℤ
  pub reduced_motion : Bool

unfoldable pub build_session_start : Identity → Client → SessionStart
build_session_start id c = record {
  tenant_id = id.tenant_id;
  session_id = id.id;
  started_at = id.started_at;
  page_path = id.page_path;
  pointer_type = c.pointer_type;
  touch = c.touch;
  viewport_w = to_uint32 c.viewport.0;
  viewport_h = to_uint32 c.viewport.1;
  tz_offset_min = wrap_int32 c.tz_offset_min;
  reduced_motion = c.reduced_motion;
}

-- What the call does to the outside, in order.
pub data StartEffect : Type 0 where
  append_start : SessionStart → StartEffect
  start_written : StartEffect
  start_dropped : DropReason → StartEffect

abbrev pub start_count : Appended → List StartEffect
start_count Appended.written = start_written ∷ []
start_count Appended.unavailable = []
start_count Appended.deadline = start_dropped late ∷ []
start_count Appended.refused = start_dropped failed ∷ []

-- What the call draws and meets outside: the two identifiers, the clock's two readings, the
-- archive's pressure and its answer.
pub record StartOutside (F : Type 0) : Type 0 where
  pub new_token : Option String
  pub new_id : Option String
  pub started_at : ℕ
  pub created_at : ℕ
  pub pressure : F
  pub append_answer : Appended

module _ {F : Type 0} (fl : Float64 F) where
  unfoldable pub archive_start : StartOutside F → SessionStart → List StartEffect
  archive_start o start =
      if fl.le (fl.literal 8 10) o.pressure
      then start_dropped shed ∷ []
      else append_start start ∷ start_count o.append_answer

  -- `StartSession`: the token, or `none` for an error of the store.
  unfoldable pub start_session :
      StartOutside F
      → String
      → String
      → Client
      → Store F
      → Store F × Option String × List StartEffect
  start_session o tenant_id page_path client s =
      let made =
        create fl o.new_token o.new_id o.started_at o.created_at tenant_id page_path client s in
      elim made.1 [
        | none ↦ (made.0, none, [])
        | some (token, ident) ↦
            (made.0, some token, archive_start o (build_session_start ident client))
      ]
