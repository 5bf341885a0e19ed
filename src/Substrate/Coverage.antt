-- ===== src/Substrate/Coverage.antt =====
-- The range of stream sequences that a transaction covers.
use ghost_trace.Prelude.{
  ℕ, ◌≤◌, ◌<◌, ◌≡◌, ◌≢◌, refl, List, [], ◌∷◌, Option, none, some, arith, All, ℕ_comparable,
}
use ghost_trace.Prelude.Int.{ℤ}
use ghost_trace.Prelude.Dict.{Dict}
use ghost_trace.Canonical.{Bytes}
use ghost_trace.Substrate.{ok, StoredRow, Position, BatchRecord, Io}
use ghost_trace.Substrate.Batch.{
  position_upsert, Tally, cover, cover_rejected, tally_affected, insert_records,
}
use ghost_trace.Substrate.Inversion.{insert_records-step}

-- A sequence lies in the range of the batch so far.
pub record Within (t : Tally) (seq : ℕ) : Type 0 where
  pub set : 0 < t.first
  pub above : t.first ≤ seq
  pub below : seq ≤ t.highest

pub cover-Within_self : (seq : ℕ) (t : Tally) → seq ≢ 0 → Within (cover seq t) seq
unfolding cover
cover-Within_self seq t h = ground arith

pub cover-Within : (seq x : ℕ) (t : Tally) → seq ≢ 0 → Within t x → Within (cover seq t) x
unfolding cover
cover-Within seq x t h w = ground arith

tally_affected-Within : (n x : ℕ) (t : Tally) → Within t x → Within (tally_affected n t) x
tally_affected-Within n x t w = ground arith

pub cover_rejected-Within :
    (seqs : List ℕ) (t t' : Tally)
    → cover_rejected seqs t ≡ ok t'
    → ((x : ℕ) → Within t x → Within t' x) × All (Within t') seqs
unfolding cover_rejected
cover_rejected-Within [] t t' e = (λ x w. ground arith, tt)
cover_rejected-Within (seq ∷ seqs) t t' e =
    let rest = cover_rejected-Within seqs (cover seq t) t' (ground arith) in
    let placed : seq ≢ 0 = ground arith in
    (
      λ x w. rest.0 x (cover-Within seq x t placed w),
      (rest.0 seq (cover-Within_self seq t placed), rest.1),
    )

pub cover_rejected-counts :
    (seqs : List ℕ) (t t' : Tally)
    → cover_rejected seqs t ≡ ok t'
    → (t'.committed ≡ t.committed) × (t'.duplicates ≡ t.duplicates)
unfolding cover_rejected cover
cover_rejected-counts [] t t' e = ground arith
cover_rejected-counts (seq ∷ seqs) t t' e =
    ground (arith, cover_rejected-counts seqs (cover seq t) t')

pub insert_records-Within :
    (io : Io) (at_time : ℤ) (recs : List BatchRecord) (acc acc' : Dict Bytes StoredRow × Tally)
    → All (λ r. r.seq ≢ 0) recs
    → insert_records io at_time recs acc ≡ ok acc'
    → ((x : ℕ) → Within acc.1 x → Within acc'.1 x) × All (λ r. Within acc'.1 r.seq) recs
unfolding insert_records
insert_records-Within io at_time [] acc acc' p e =
    (λ x w. let same : acc ≡ acc' = cc in rw (← same) w, tt)
insert_records-Within io at_time (r ∷ rs) (events, t) acc' p e =
    let rest =
      insert_records-Within io at_time rs _ acc' p.1
        (insert_records-step io at_time r rs events t acc' e) in
    (
      λ x w. rest.0 x (cover-Within r.seq x _ p.0 (tally_affected-Within _ x t w)),
      (rest.0 r.seq (cover-Within_self r.seq _ p.0), rest.1),
    )

-- The sequences between the first and the highest that the archive has seen.
pub record Walked (p : Option Position) (seq : ℕ) : Type 0 where
  pub position : Position
  pub recorded : p ≡ some position
  pub above : position.first_seq ≤ seq
  pub below : seq ≤ position.highest_seq

pub position_upsert-Walked :
    (t : Tally) (c r d seq : ℕ) (p : Option Position)
    → Within t seq
    → Walked (some (position_upsert t.first t.highest c r d p)) seq
unfolding position_upsert
position_upsert-Walked t c r d seq none w = record {
  position = _;
  recorded = refl;
  above = w.above;
  below = w.below;
}
position_upsert-Walked t c r d seq (some p) w = record {
  position = _;
  recorded = refl;
  above = omega arith;
  below = omega arith;
}

-- An upsert never narrows the range.
pub position_upsert-Walked_old :
    (first highest c r d seq : ℕ) (p : Option Position)
    → Walked p seq
    → Walked (some (position_upsert first highest c r d p)) seq
unfolding position_upsert
position_upsert-Walked_old first highest c r d seq none w = absurd (ground (arith, w.recorded))
position_upsert-Walked_old first highest c r d seq (some p) w = record {
  position = _;
  recorded = refl;
  above = ground (arith, w.recorded, w.above);
  below = ground (arith, w.recorded, w.below);
}
