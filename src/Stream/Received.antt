-- ===== src/Stream/Received.antt =====
-- The steps of a turn of the loop: a message of a fetch, and the end of the turn.
use ghost_trace.Prelude.{◌≡◌, ◌⊎◌, refl, List, [], ◌∷◌, Option, none, some, inl, inr, length}
use ghost_trace.Canonical.{Bytes}
use ghost_trace.Consumer.{ArchiveRecord, Item}
use ghost_trace.Stream.Consume.{
  Incoming, delivery_of, term, BatchHandler, Taken, item_of, report_undecodable, receive, commit,
  settle,
}

pub List-cases {ℓ} :
    {A : Type ℓ} (xs : List A) → (xs ≡ []) ⊎ ((x : A) × (rest : List A) × (xs ≡ x ∷ rest))
List-cases [] = inl refl
List-cases (x ∷ rest) = inr (x, rest, refl)

-- One message of a fetch.
module _ {E S : Type 0} (unmarshal : Bytes → Option ArchiveRecord) (h : BatchHandler E S) where
  abbrev pub after_report : E → Incoming → List Incoming → S → S
  after_report meets m ms s =
      report_undecodable unmarshal h meets (length ms) (delivery_of m.metadata) s

  pub receive_undecodable :
      (meets : E) (m : Incoming) (ms : List Incoming) (s : S)
      → unmarshal m.data_bytes ≡ none
      → receive unmarshal h meets (m ∷ ms) s
        ≡ record (receive unmarshal h meets ms (after_report meets m ms s)) {
          replies =
              record { to_message = m; answer = term }
              ∷ (receive unmarshal h meets ms (after_report meets m ms s)).replies;
        }
  unfolding receive
  receive_undecodable meets m ms s e = rw (e, receive) refl

  pub receive_decodable :
      (meets : E) (m : Incoming) (ms : List Incoming) (s : S) (rec : ArchiveRecord)
      → unmarshal m.data_bytes ≡ some rec
      → receive unmarshal h meets (m ∷ ms) s ≡ record (receive unmarshal h meets ms s) {
        batch = item_of rec (delivery_of m.metadata) ∷ (receive unmarshal h meets ms s).batch;
        held = m ∷ (receive unmarshal h meets ms s).held;
      }
  unfolding receive
  receive_decodable meets m ms s rec e = rw (e, receive) refl

  pub settle_lem :
      (meets : E) (t : Taken S) (i : Item) (rest : List Item)
      → t.batch ≡ i ∷ rest
      → settle unmarshal h meets t ≡ commit unmarshal h meets t
  unfolding settle
  settle_lem meets t i rest e = simp (e, settle)
