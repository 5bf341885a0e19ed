-- ===== src/Session/Marks.antt =====
-- Batches arrive out of order and are retried: the high-water marks of a session.
use ghost_trace.Prelude.{ℕ, ◌+◌, ◌<◌, ◌≡◌, refl, ◌∙◌, List, [], ◌∷◌, max, map, length, arith}
use mathlib.Core.List.{Permᴰ}
use ghost_trace.Session.{State, observe_batch, raise}

-- A batch's counter and the time at which the client says it was sent.
abbrev pub Batch : Type 0
Batch = ℕ × ℕ

-- The greatest of a mark and some values.
abbrev pub greatest : ℕ → List ℕ → ℕ
greatest mark [] = mark
greatest mark (v ∷ vs) = max v (greatest mark vs)

greatest-raise : (mark v : ℕ) (vs : List ℕ) → greatest (raise mark v) vs ≡ max v (greatest mark vs)
greatest-raise mark v [] = ground arith
greatest-raise mark v (w ∷ vs) = ground (arith, greatest-raise mark v vs)

module _ {F : Type 0} where
  unfoldable pub observe_batches : List Batch → State F → State F
  observe_batches [] st = st
  observe_batches (b ∷ bs) st = observe_batches bs (observe_batch b.0 b.1 st)

  observe_batch_comm :
      (b c : Batch) (st : State F)
      → observe_batch b.0 b.1 (observe_batch c.0 c.1 st)
        ≡ observe_batch c.0 c.1 (observe_batch b.0 b.1 st)
  unfolding observe_batch
  observe_batch_comm b c st = ground arith

  -- Two sequences of batches that are the same up to order leave a session in the same state,
  -- whatever the session has seen before.
  pub observe_batches-Perm :
      (bs cs : List Batch) (st : State F)
      → Permᴰ bs cs
      → observe_batches bs st ≡ observe_batches cs st
  unfolding observe_batches
  observe_batches-Perm _ _ st Permᴰ.nil = refl
  observe_batches-Perm _ _ st (Permᴰ.cons {b = c} {l₁ = bs} {l₂ = cs} e p) =
      rw e (observe_batches-Perm bs cs (observe_batch c.0 c.1 st) p)
  observe_batches-Perm _ _ st (Permᴰ.swap {a' = b} {b' = c} {l = bs} e f) =
      rw (e, f, observe_batch_comm b c st) refl
  observe_batches-Perm _ _ st (Permᴰ.trans {l₁ = bs} {l₂ = cs} {l₃ = ds} p q) =
      observe_batches-Perm bs cs st p ∙ observe_batches-Perm cs ds st q

  -- After any sequence of batches, retries included: the highest counter is the greatest of the
  -- one before and those of the batches, the last event time is the greatest of the one before
  -- and the times at which the batches were sent, and while the number of batches stays below
  -- 2^32, their count grows by exactly the length of the sequence.
  pub observe_batches-marks :
      (bs : List Batch) (st : State F)
      → st.batches_seen + length bs < 4294967296
      → ((observe_batches bs st).highest_seq ≡ greatest st.highest_seq (map (λ b. b.0) bs))
        × ((observe_batches bs st).last_event_ms ≡ greatest st.last_event_ms (map (λ b. b.1) bs))
        × ((observe_batches bs st).batches_seen ≡ st.batches_seen + length bs)
  unfolding observe_batches observe_batch
  observe_batches-marks [] st small = (refl, refl, omega arith)
  observe_batches-marks (b ∷ bs) st small =
      let rest = observe_batches-marks bs (observe_batch b.0 b.1 st) (ground arith) in
      (
        rest.0 ∙ greatest-raise st.highest_seq b.0 (map (λ c. c.0) bs),
        rest.1 ∙ greatest-raise st.last_event_ms b.1 (map (λ c. c.1) bs),
        ground arith,
      )
