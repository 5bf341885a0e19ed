-- ===== src/Collector/Agreement.antt =====
-- The collector's live answer and the decision engine's answer from the published snapshot.
use ghost_trace.Prelude.{
  ◌≡◌, inl, inr, refl, ◌∙◌, arith, true, false, Bool-cases, Option-cases, none, some, List, [], ◌∷◌,
  ◌==◌, ◌&&◌, string_comparable, String, if◌then◌else◌,
}
use ghost_trace.Prelude.Dict.{lookup, insert, lookup-insert_self}
use ghost_trace.Prelude.Float.{Float64}
use ghost_trace.Session.{
  State, Entry, Store, with_token, with_entry, is_expired, observe_batch, observe_event_time,
}
use ghost_trace.Session.Expiry.{live}
use ghost_trace.Decision.{Session, live_lookup, copy_mine}
use ghost_trace.Snapshot.{SessionSnapshot, from_state, to_state_of, to_state, snapshot_lookup, Got}
use ghost_trace.Snapshot as Snap
use ghost_trace.Collector.{
  TelemetryEvent, TelemetryEnvelope, dispatch, observe_events, observe_envelope, absorb,
}
use ghost_trace.Collector.Batch.{
  Effect, put_snapshot, append_batch, count_written, count_dropped, session_not_found, Outside,
  publish, ingest_telemetry,
}

module _ {F G : Type 0} (fl : Float64 F) (narrow : F → G) (widen : G → F) where
  dispatch-tenant_id :
      (ev : TelemetryEvent) (st : State F)
      → ((dispatch fl ev st).tenant_id ≡ st.tenant_id) × ((dispatch fl ev st).id ≡ st.id)
  unfolding dispatch
  dispatch-tenant_id ev st = ground arith

  observe_events-tenant_id :
      (evs : List TelemetryEvent) (st : State F)
      → ((observe_events fl evs st).tenant_id ≡ st.tenant_id)
        × ((observe_events fl evs st).id ≡ st.id)
  unfolding observe_events observe_event_time
  observe_events-tenant_id [] st = (refl, refl)
  observe_events-tenant_id (ev ∷ evs) st =
      let one = dispatch-tenant_id ev (observe_event_time ev.t st) in
      let rest = observe_events-tenant_id evs (dispatch fl ev (observe_event_time ev.t st)) in
      (rest.0 ∙ one.0, rest.1 ∙ one.1)

  -- Telemetry does not change whose session it is.
  observe_envelope-tenant_id :
      (env : TelemetryEnvelope) (st : State F)
      → ((observe_envelope fl env st).tenant_id ≡ st.tenant_id)
        × ((observe_envelope fl env st).id ≡ st.id)
  unfolding observe_envelope observe_batch
  observe_envelope-tenant_id env st =
      observe_events-tenant_id env.events (observe_batch env.seq env.sent_at_ms st)

  -- What a store of snapshots that took every one offered to it has for a tenant and a token.
  unfoldable pub offered : String → String → List (Effect G) → Got G
  offered tenant_id token [] = Snap.no_snapshot
  offered tenant_id token (put_snapshot key snap ∷ rest) =
      let later = offered tenant_id token rest in
      if key == token && snap.tenant_id == tenant_id then Snap.snapshot snap else later
  offered tenant_id token (append_batch batch ∷ rest) = offered tenant_id token rest
  offered tenant_id token (count_written kind ∷ rest) = offered tenant_id token rest
  offered tenant_id token (count_dropped kind reason ∷ rest) = offered tenant_id token rest

  -- One session is the other with each float as a float32 has it, and each count unchanged.
  pub record IsRounded (mine seen : Session F) : Type 0 where
    pub id : seen.id ≡ mine.id
    pub tenant_id : seen.tenant_id ≡ mine.tenant_id
    pub last_event_ms : seen.last_event_ms ≡ mine.last_event_ms
    pub straightness :
        seen.state.pointer.straightness ≡ widen (narrow mine.state.pointer.straightness)
    pub path_px : seen.state.pointer.path_px ≡ widen (narrow mine.state.pointer.path_px)
    pub flight_cv : seen.state.keystroke.flight_cv ≡ widen (narrow mine.state.keystroke.flight_cv)
    pub dwell_cv : seen.state.keystroke.dwell_cv ≡ widen (narrow mine.state.keystroke.dwell_cv)
    pub mean_dwell_ms :
        seen.state.keystroke.mean_dwell_ms ≡ widen (narrow mine.state.keystroke.mean_dwell_ms)
    pub exact_repeat_ratio :
        seen.state.keystroke.exact_repeat_ratio
        ≡ widen (narrow mine.state.keystroke.exact_repeat_ratio)
    pub programmatic_scroll_ratio :
        seen.state.interaction.programmatic_scroll_ratio
        ≡ widen (narrow mine.state.interaction.programmatic_scroll_ratio)
    pub segments : seen.state.pointer.segments ≡ mine.state.pointer.segments
    pub points : seen.state.pointer.points ≡ mine.state.pointer.points
    pub intervals : seen.state.keystroke.intervals ≡ mine.state.keystroke.intervals
    pub keys : seen.state.keystroke.keys ≡ mine.state.keystroke.keys
    pub scroll_events : seen.state.interaction.scroll_events ≡ mine.state.interaction.scroll_events
    pub focus_transitions :
        seen.state.interaction.focus_transitions ≡ mine.state.interaction.focus_transitions
    pub distinct_focus_targets :
        seen.state.interaction.distinct_focus_targets
        ≡ mine.state.interaction.distinct_focus_targets
    pub hidden_periods :
        seen.state.interaction.hidden_periods ≡ mine.state.interaction.hidden_periods
    pub pastes : seen.state.interaction.pastes ≡ mine.state.interaction.pastes
    pub autofills : seen.state.interaction.autofills ≡ mine.state.interaction.autofills
    pub injections : seen.state.interaction.injections ≡ mine.state.interaction.injections
    pub injected_fields :
        seen.state.interaction.injected_fields ≡ mine.state.interaction.injected_fields

  -- Telemetry for a token whose session has not expired is accepted; and directly afterwards, at
  -- the same time, the live store finds the session for its tenant, and the decision engine finds,
  -- from the snapshot that was offered under that tenant and token, the same session: the same
  -- identity, event time and twelve counts, and each of the seven floats rounded to float32.
  pub ingest_telemetry-agreement :
      (o : Outside F) (env : TelemetryEnvelope) (s : Store F) (e : Entry F)
      → lookup env.session_token s.by_token ≡ some e
      → is_expired o.now e ≡ false
      → ((ingest_telemetry fl narrow widen o env s).1.0 ≡ inr tt)
        × ((mine : Session F) × (seen : Session F) × ((live_lookup fl e.state.tenant_id
                env.session_token o.now
                (ingest_telemetry fl narrow widen o env s).0).1
              ≡ (mine, true))
            × (snapshot_lookup narrow widen fl (
                  offered e.state.tenant_id env.session_token
                    (ingest_telemetry fl narrow widen o env s).1.1)
                ≡ some (seen, true))
            × IsRounded mine seen)
  unfolding ingest_telemetry with_token with_entry publish absorb live_lookup copy_mine
      snapshot_lookup to_state to_state_of from_state offered
  ingest_telemetry-agreement o env s e present fresh =
      let st : State F = observe_envelope fl env e.state in
      let own : (st.tenant_id == e.state.tenant_id) ≡ true =
        (string_comparable.same_iff st.tenant_id e.state.tenant_id).1
          (observe_envelope-tenant_id env e.state).0 in
      let same_token : (env.session_token == env.session_token) ≡ true =
        (string_comparable.same_iff env.session_token env.session_token).1 refl in
      let stored : lookup env.session_token
            (insert env.session_token (record e { state = st }) s.by_token)
          ≡ some (record e { state = st }) =
        lookup-insert_self env.session_token (record e { state = st }) s.by_token in
      rw (present, fresh)
        (
          refl,
          rw (stored, fresh, own, same_token)
              (
                _,
                _,
                refl,
                refl,
                record {
                  id = refl;
                  tenant_id = refl;
                  last_event_ms = refl;
                  straightness = refl;
                  path_px = refl;
                  flight_cv = refl;
                  dwell_cv = refl;
                  mean_dwell_ms = refl;
                  exact_repeat_ratio = refl;
                  programmatic_scroll_ratio = refl;
                  segments = refl;
                  points = refl;
                  intervals = refl;
                  keys = refl;
                  scroll_events = refl;
                  focus_transitions = refl;
                  distinct_focus_targets = refl;
                  hidden_periods = refl;
                  pastes = refl;
                  autofills = refl;
                  injections = refl;
                  injected_fields = refl;
                },
              ),
        )

  -- Telemetry for an unknown or expired token is refused, and nothing is published, archived or
  -- counted.
  pub ingest_telemetry-refused :
      (o : Outside F) (env : TelemetryEnvelope) (s : Store F)
      → live o.now (lookup env.session_token s.by_token) ≡ none
      → (ingest_telemetry fl narrow widen o env s).1 ≡ (inl session_not_found, [])
  unfolding ingest_telemetry with_token with_entry publish
  ingest_telemetry-refused o env s h = elim (Option-cases (lookup env.session_token s.by_token)) [
    | inl absent ↦ rw absent refl
    | inr (e, present) ↦ elim (Bool-cases (is_expired o.now e)) [
      | inl old ↦ rw (present, old) refl
      | inr fresh ↦ absurd (ground arith)
    ]
  ]
