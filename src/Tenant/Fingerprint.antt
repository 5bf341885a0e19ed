-- ===== src/Tenant/Fingerprint.antt =====
-- Fingerprint and DemoTenants of libs/tenant/tenant.go. The bytes of a string and SHA-256 are parameters.
use ghost_trace.Prelude.{
  ◌≡◌, ◌∙◌, ap, sym, subst, refl, Bool, Bool-cases, true, false, String, List, [], ◌∷◌, ◌++◌, map,
  ltb, inl, inr, ◌⊎◌, arith, if◌then◌else◌,
}
use mathlib.Core.List.{Permᴰ}
use ghost_trace.Prelude.Text.{Text}
use ghost_trace.Canonical.{Bytes, hash_hex}
use ghost_trace.Tenant.{Tenant, Registry, demo_ids}

-- `a <= b` on strings.
unfoldable pub text_le : Text → Text → Bool
text_le [] ys = true
text_le (a ∷ xs) [] = false
text_le (a ∷ xs) (b ∷ ys) =
    let rest = text_le xs ys in if ltb a b then true else if ltb b a then false else rest

unfoldable pub insert_text : Text → List Text → List Text
insert_text t [] = t ∷ []
insert_text t (u ∷ us) = let rest = insert_text t us in if text_le t u then t ∷ u ∷ us else u ∷ rest

-- `sort.Strings`
unfoldable pub sort_texts : List Text → List Text
sort_texts [] = []
sort_texts (t ∷ ts) = insert_text t (sort_texts ts)

-- `strings.Join`
unfoldable pub join : Bytes → List Text → Text
join sep [] = []
join sep (t ∷ []) = t
join sep (t ∷ u ∷ us) = t ++ sep ++ join sep (u ∷ us)

abbrev pub first_eight : Bytes → Bytes
first_eight (a ∷ b ∷ c ∷ d ∷ e ∷ f ∷ g ∷ h ∷ rest) = a ∷ b ∷ c ∷ d ∷ e ∷ f ∷ g ∷ h ∷ []
first_eight short = short

module _ (bytes_of : String → Bytes) (sum256 : Bytes → Bytes) where
  abbrev pub row_of : Tenant → Text
  row_of t = bytes_of t.id ++ (0 ∷ bytes_of t.site_key)

  unfoldable pub fingerprint : Registry → Text
  fingerprint r = hash_hex (first_eight (sum256 (join (30 ∷ []) (sort_texts (map row_of r.all)))))

-- `DemoTenants`, as the bytes of the ids.
unfoldable pub demo_tenants : (String → Bytes) → Registry → List Text
demo_tenants bytes_of r = sort_texts (map bytes_of (demo_ids r.all))

text_le_total : (a b : Text) → (text_le a b ≡ true) ⊎ (text_le b a ≡ true)
unfolding text_le
text_le_total [] b = inl refl
text_le_total (a ∷ xs) [] = inr refl
text_le_total (a ∷ xs) (b ∷ ys) = elim (text_le_total xs ys) [
  | inl h ↦ ground (arith, h)
  | inr h ↦ ground (arith, h)
]

text_le_antisym : (a b : Text) → text_le a b ≡ true → text_le b a ≡ true → a ≡ b
unfolding text_le
text_le_antisym [] [] h g = refl
text_le_antisym [] (b ∷ ys) h g = absurd (ground arith)
text_le_antisym (a ∷ xs) [] h g = absurd (ground arith)
text_le_antisym (a ∷ xs) (b ∷ ys) h g = ground (arith, text_le_antisym xs ys)

text_le_trans : (a b c : Text) → text_le a b ≡ true → text_le b c ≡ true → text_le a c ≡ true
unfolding text_le
text_le_trans [] b c h g = refl
text_le_trans (a ∷ xs) [] c h g = absurd (ground arith)
text_le_trans (a ∷ xs) (b ∷ ys) [] h g = absurd (ground arith)
text_le_trans (a ∷ xs) (b ∷ ys) (c ∷ zs) h g = ground (arith, text_le_trans xs ys zs)

insert_text_ordered :
    (t u : Text) (us : List Text)
    → text_le t u ≡ true
    → text_le u t ≡ false
    → insert_text t (insert_text u us) ≡ insert_text u (insert_text t us)
unfolding insert_text
insert_text_ordered t u [] h strict = rw (h, strict) refl
insert_text_ordered t u (w ∷ us) h strict = elim (Bool-cases (text_le u w)) [
  | inl low ↦
      let first = text_le_trans t u w h low in rw (insert_text, low, first, h, strict, low) refl
  | inr high ↦ elim (Bool-cases (text_le t w)) [
    | inl first ↦ rw (insert_text, high, first, strict, high) refl
    | inr last ↦
        let deeper = insert_text_ordered t u us h strict in
        rw (insert_text, high, last, high) (ap (λ l. w ∷ l) deeper)
  ]
]

insert_text_comm :
    (t u : Text) (us : List Text)
    → insert_text t (insert_text u us) ≡ insert_text u (insert_text t us)
insert_text_comm t u us = elim (Bool-cases (text_le t u)) [
  | inr h ↦ elim (text_le_total t u) [
    | inl absent ↦ absurd (ground (arith, h, absent))
    | inr back ↦ sym (insert_text_ordered u t us back h)
  ]
  | inl h ↦ elim (Bool-cases (text_le u t)) [
    | inr strict ↦ insert_text_ordered t u us h strict
    | inl back ↦
        subst (λ v. insert_text t (insert_text v us) ≡ insert_text v (insert_text t us))
          (text_le_antisym t u h back) refl
  ]
]

sort_texts-Perm :
    {A : Type 0} (f : A → Text) (xs ys : List A)
    → Permᴰ xs ys
    → sort_texts (map f xs) ≡ sort_texts (map f ys)
unfolding sort_texts
sort_texts-Perm f _ _ Permᴰ.nil = refl
sort_texts-Perm f _ _ (Permᴰ.cons {b = b} {l₁ = xs} {l₂ = ys} e p) =
    rw e (ap (insert_text (f b)) (sort_texts-Perm f xs ys p))
sort_texts-Perm f _ _ (Permᴰ.swap {a' = b} {b' = c} {l = xs} e d) =
    rw (e, d) (insert_text_comm (f c) (f b) (sort_texts (map f xs)))
sort_texts-Perm f _ _ (Permᴰ.trans {l₁ = xs} {l₂ = ys} {l₃ = zs} p q) =
    sort_texts-Perm f xs ys p ∙ sort_texts-Perm f ys zs q

module _ (bytes_of : String → Bytes) (sum256 : Bytes → Bytes) where
  -- The order in which the tenants are declared does not change the fingerprint.
  pub fingerprint-Perm :
      (r q : Registry)
      → Permᴰ r.all q.all
      → fingerprint bytes_of sum256 r ≡ fingerprint bytes_of sum256 q
  unfolding fingerprint
  fingerprint-Perm r q p =
      ap (λ rows. hash_hex (first_eight (sum256 (join (30 ∷ []) rows))))
        (sort_texts-Perm (row_of bytes_of sum256) r.all q.all p)
