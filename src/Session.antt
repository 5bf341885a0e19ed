-- ===== src/Session.antt =====
-- services/collector/internal/session/session.go: the sessions behind their tokens. A time is a
-- number of nanoseconds, and every call of the store's clock is an argument. `NewID` draws from the
-- system's random source: what it returns, or its failure, is an argument.
use ghost_trace.Prelude.{
  ℕ, ◌+◌, ◌%◌, Bool, true, false, String, Option, none, some, List, [], ◌∷◌, length, ltb,
  if◌then◌else◌, string_comparable,
}
use ghost_trace.Prelude.Int.{ℤ}
use ghost_trace.Prelude.Dict.{Dict, lookup, insert, erase}
use ghost_trace.Prelude.Float.{Float64}
use ghost_trace.Features.{Pointer, Keystroke, Interaction, incr}
use ghost_trace.Features.Segments.{no_pointer}
use ghost_trace.Features.Timing.{no_keystroke}
use ghost_trace.Features.Counters.{no_interaction}
mod Marks
pub mod Expiry
mod Lifetime
mod Tests

pub record Client : Type 0 where
  pub pointer_type : String
  pub touch : Bool
  pub viewport : ℤ × ℤ
  pub tz_offset_min : ℤ
  pub reduced_motion : Bool

pub record State (F : Type 0) : Type 0 where
  pub id : String
  pub tenant_id : String
  pub page_path : String
  pub client : Client
  pub started_at : ℕ
  pub pointer : Pointer F
  pub keystroke : Keystroke F
  pub interaction : Interaction
  pub highest_seq : ℕ
  pub batches_seen : ℕ
  pub last_event_ms : ℕ

-- The high-water mark after a value.
abbrev pub raise : ℕ → ℕ → ℕ
raise mark v = if ltb mark v then v else mark

pub record Entry (F : Type 0) : Type 0 where
  pub state : State F
  pub expires_at : ℕ

pub record Store (F : Type 0) : Type 0 where
  pub by_token : Dict String (Entry F)
  pub ttl : ℕ

pub record Identity : Type 0 where
  pub id : String
  pub tenant_id : String
  pub page_path : String
  pub started_at : ℕ

module _ {F : Type 0} where
  unfoldable pub observe_batch : ℕ → ℕ → State F → State F
  observe_batch seq sent_at_ms st = record st {
    batches_seen = incr st.batches_seen;
    highest_seq = raise st.highest_seq seq;
    last_event_ms = raise st.last_event_ms sent_at_ms;
  }

  unfoldable pub observe_event_time : ℕ → State F → State F
  observe_event_time t st = record st { last_event_ms = raise st.last_event_ms t }

  abbrev pub identity : State F → Identity
  identity st = record {
    id = st.id;
    tenant_id = st.tenant_id;
    page_path = st.page_path;
    started_at = st.started_at;
  }

  abbrev pub is_expired : ℕ → Entry F → Bool
  is_expired now e = ltb e.expires_at now

  -- `With`: `fn` runs on a live session's state and answers with a result; an expired session is
  -- deleted. `none` is ErrNotFound.
  unfoldable pub with_entry {ℓ} :
      {A : Type ℓ}
      → String
      → (State F → State F × A)
      → Store F
      → ℕ
      → Option (Entry F)
      → Store F × Option A
  with_entry token fn s now none = (s, none)
  with_entry token fn s now (some e) =
      if is_expired now e then (record s { by_token = erase token s.by_token }, none) else (
        record s { by_token = insert token (record e { state = (fn e.state).0 }) s.by_token },
        some (fn e.state).1,
      )

  unfoldable pub with_token {ℓ} :
      {A : Type ℓ} → String → (State F → State F × A) → ℕ → Store F → Store F × Option A
  with_token token fn now s = with_entry token fn s now (lookup token s.by_token)

  unfoldable pub len : Store F → ℕ
  len s = length s.by_token

  -- The loop of `Sweep`, in the order in which the map is walked.
  unfoldable pub sweep_entries : ℕ → Dict String (Entry F) → Dict String (Entry F) × ℕ
  sweep_entries now [] = ([], 0)
  sweep_entries now ((token, e) ∷ m) =
      let rest = sweep_entries now m in
      if is_expired now e then (rest.0, rest.1 + 1) else ((token, e) ∷ rest.0, rest.1)

  unfoldable pub sweep : ℕ → Store F → Store F × ℕ
  sweep now s =
      (record s { by_token = (sweep_entries now s.by_token).0 }, (sweep_entries now s.by_token).1)

module _ {F : Type 0} (fl : Float64 F) where
  abbrev pub new_state : String → String → String → Client → ℕ → State F
  new_state id tenant_id page_path client now = record {
    id = id;
    tenant_id = tenant_id;
    page_path = page_path;
    client = client;
    started_at = now;
    pointer = no_pointer fl;
    keystroke = no_keystroke fl;
    interaction = no_interaction;
    highest_seq = 0;
    batches_seen = 0;
    last_event_ms = 0;
  }

  abbrev pub new_store : ℕ → Store F
  new_store ttl = record { by_token = []; ttl = ttl }

  -- `Create` with the two identifiers that `NewID` gives and the two readings of the clock.
  unfoldable pub create :
      Option String
      → Option String
      → ℕ
      → ℕ
      → String
      → String
      → Client
      → Store F
      → Store F × Option (String × Identity)
  create none new_id started now tenant_id page_path client s = (s, none)
  create (some token) none started now tenant_id page_path client s = (s, none)
  create (some token) (some id) started now tenant_id page_path client s = (
    record s {
      by_token = insert token (record { state = st; expires_at = now + s.ttl }) s.by_token;
    },
    some (token, identity st),
  )
    where
      st : State F
      st = new_state id tenant_id page_path client started
