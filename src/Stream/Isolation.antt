-- ===== src/Stream/Isolation.antt =====
-- Whose snapshot a key of the bucket is.
use ghost_trace.Prelude.{
  ◌≡◌, ◌≢◌, ◌⊎◌, inl, inr, refl, ap, sym, ◌∙◌, List, [], ◌∷◌, ◌++◌, map, Option, some, arith,
  Option-cases, Bool-cases, bytes_comparable,
}
use ghost_trace.Prelude.Text.{Text, codes, split_on, split_on-append, split_on-Lacks}
use ghost_trace.Canonical.{Bytes}
use ghost_trace.Snapshot.{SessionSnapshot, snapshot, store_error}
use ghost_trace.Stream.{replace_byte, sanitize_token, session_key}
use ghost_trace.Stream.Subjects.{sanitize_token-Lacks}
use ghost_trace.Stream.Keys.{kv_error, KeyValue, KeyValueLaws, put, get}

session_key-tokens :
    (tenant token : Text)
    → split_on b'.' (session_key tenant token) ≡ sanitize_token tenant ∷ sanitize_token token ∷ []
unfolding session_key
session_key-tokens tenant token = cc (
  split_on-append b'.' (sanitize_token tenant) (sanitize_token token) (sanitize_token-Lacks tenant),
  split_on-Lacks b'.' (sanitize_token token) (sanitize_token-Lacks token),
)

-- A key is one pair of tokens'.
pub session_key-injective :
    (t u p q : Text)
    → session_key t p ≡ session_key u q
    → (sanitize_token t ≡ sanitize_token u) × (sanitize_token p ≡ sanitize_token q)
session_key-injective t u p q e =
    two_of (sym (session_key-tokens t p) ∙ ap (split_on b'.') e ∙ session_key-tokens u q)
  where
    two_of : {a b c d : Text} → ◌≡◌ {A = List Text} (a ∷ b ∷ []) (c ∷ d ∷ []) → (a ≡ c) × (b ≡ d)
    two_of h = ground arith

same_key :
    (t token u : Text)
    → sanitize_token t ≡ sanitize_token u
    → session_key t token ≡ session_key u token
unfolding session_key
same_key t token u e = ap (λ l. l ++ (b'.' ∷ sanitize_token token)) e

differing_key :
    (t p u q : Text)
    → ((sanitize_token p ≢ sanitize_token q) ⊎ (sanitize_token t ≢ sanitize_token u))
    → session_key t p ≢ session_key u q
differing_key t p u q (inl differ) e = differ (session_key-injective t u p q e).1
differing_key t p u q (inr differ) e = differ (session_key-injective t u p q e).0

-- A text with one of the replaced bytes has the token of the text with an underscore there.
sanitize_token-append :
    (before after : Text)
    → sanitize_token (before ++ (b'.' ∷ after)) ≡ sanitize_token (before ++ (b'_' ∷ after))
unfolding sanitize_token
sanitize_token-append [] after = refl
sanitize_token-append (c ∷ cs) after = ap (λ l. replace_byte c ∷ l) (map_append cs)
  where
    map_append :
        (l : Text) → map replace_byte (l ++ (b'.' ∷ after)) ≡ map replace_byte (l ++ (b'_' ∷ after))
    map_append [] = refl
    map_append (d ∷ ds) = ap (λ l. replace_byte d ∷ l) (map_append ds)

module _ {B G : Type 0} (kv : KeyValue B) (laws : KeyValueLaws kv)
    (marshal : SessionSnapshot G → Option Bytes)
    (unmarshal : Bytes → Option (SessionSnapshot G)) where
  put-ok :
      (token : Text) (snap : SessionSnapshot G) (b b' : B)
      → put kv marshal unmarshal token snap b ≡ (b', inr tt)
      → (body : Bytes) × (marshal snap ≡ some body)
        × (laws.contents b' (session_key (codes snap.tenant_id) token) ≡ some body)
  unfolding put
  put-ok token snap b b' e = elim (Option-cases (marshal snap)) [
    | inl lost ↦ absurd (ground arith)
    | inr (body, made) ↦
        let key = session_key (codes snap.tenant_id) token in
        elim (Bool-cases (kv.kv_put key body b).1) [
          | inl done ↦
              let after : (kv.kv_put key body b).0 ≡ b' = ground arith in
              (body, made, rw (← after) (laws.put_same key body b done))
          | inr refused ↦ absurd (ground arith)
        ]
  ]

  -- What a Get reads is the entry of its key, and an error exactly where the bucket fails.
  get-contents :
      (tenant token : Text) (b : B) (snap : SessionSnapshot G) (body : Bytes)
      → laws.contents b (session_key tenant token) ≡ some body
      → unmarshal body ≡ some snap
      → (kv.kv_get (session_key tenant token) b ≡ kv_error
          → get kv marshal unmarshal tenant token b ≡ store_error)
        × (kv.kv_get (session_key tenant token) b ≢ kv_error
            → get kv marshal unmarshal tenant token b ≡ snapshot snap)
  unfolding get
  get-contents tenant token b snap body held reads = (
    λ failed. rw (failed, get) refl,
    λ answers. elim (laws.get_lem (session_key tenant token) b) [
      | inl failed ↦ absurd (answers failed)
      | inr answered ↦ rw (answered, get, held, reads) refl
    ],
  )

  -- After a Put that reports no error, a Get with the snapshot's token reads that snapshot, unless
  -- the bucket itself fails to answer, which the Get then reports as an error: under the tenant of
  -- the snapshot, and under every other tenant whose id the key does not tell from it. The snapshot
  -- is one that is read back as it was written.
  pub put-get :
      ((snap : SessionSnapshot G) (body : Bytes)
        → marshal snap ≡ some body
        → unmarshal body ≡ some snap)
      → (tenant token : Text) (snap : SessionSnapshot G) (b b' : B)
      → sanitize_token tenant ≡ sanitize_token (codes snap.tenant_id)
      → put kv marshal unmarshal token snap b ≡ (b', inr tt)
      → (kv.kv_get (session_key tenant token) b' ≡ kv_error
          → get kv marshal unmarshal tenant token b' ≡ store_error)
        × (kv.kv_get (session_key tenant token) b' ≢ kv_error
            → get kv marshal unmarshal tenant token b' ≡ snapshot snap)
  put-get reads tenant token snap b b' same e =
      let (body, made, held) = put-ok token snap b b' e in
      get-contents tenant token b' snap body
        (ap (laws.contents b') (same_key tenant token (codes snap.tenant_id) same) ∙ held)
        (reads snap body made)

  -- The contents of another key are not changed by a Put, whether or not it succeeds.
  put-contents :
      (key token : Text) (snap : SessionSnapshot G) (b : B)
      → key ≢ session_key (codes snap.tenant_id) token
      → laws.contents (put kv marshal unmarshal token snap b).0 key ≡ laws.contents b key
  unfolding put
  put-contents key token snap b other = elim (Option-cases (marshal snap)) [
    | inl lost ↦ rw (lost, put) refl
    | inr (body, made) ↦
        rw (made, put) (laws.put_other (session_key (codes snap.tenant_id) token) key body b other)
  ]

  get-same :
      (tenant token : Text) (b b' : B)
      → laws.contents b' (session_key tenant token) ≡ laws.contents b (session_key tenant token)
      → (kv.kv_get (session_key tenant token) b ≡ kv_error)
        ⊎ (kv.kv_get (session_key tenant token) b' ≡ kv_error)
        ⊎ (get kv marshal unmarshal tenant token b' ≡ get kv marshal unmarshal tenant token b)
  unfolding get
  get-same tenant token b b' same = elim (laws.get_lem (session_key tenant token) b) [
    | inl failed ↦ inl failed
    | inr before ↦ elim (laws.get_lem (session_key tenant token) b') [
      | inl failed ↦ inr (inl failed)
      | inr after ↦ inr (inr (rw (before, get, after, same) refl))
    ]
  ]

  -- A Get reads the same before a Put of another session's snapshot and after it, unless the bucket
  -- fails to answer one of the two: another session is one whose token differs, or whose tenant does, beyond the bytes that
  -- a key replaces.
  pub put-isolated :
      (tenant token mine : Text) (snap : SessionSnapshot G) (b : B)
      → ((sanitize_token mine ≢ sanitize_token token)
          ⊎ (sanitize_token tenant ≢ sanitize_token (codes snap.tenant_id)))
      → (kv.kv_get (session_key tenant mine) b ≡ kv_error)
        ⊎ (kv.kv_get (session_key tenant mine) (put kv marshal unmarshal token snap b).0 ≡ kv_error)
        ⊎ (get kv marshal unmarshal tenant mine (put kv marshal unmarshal token snap b).0
            ≡ get kv marshal unmarshal tenant mine b)
  put-isolated tenant token mine snap b differ =
      get-same tenant mine b (put kv marshal unmarshal token snap b).0 (
        put-contents (session_key tenant mine) token snap b
          (differing_key tenant mine (codes snap.tenant_id) token differ))
