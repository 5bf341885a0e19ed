-- ===== src/Tenant/Tests.antt =====
-- A registry of two tenants.
use ghost_trace.Prelude.{◌≡◌, ◌≢◌, ◌↔◌, refl, List, [], ◌∷◌, some, inr}
use ghost_trace.Prelude.Dict.{lookup, insert}
use ghost_trace.Tenant.{
  Tenant, Registry, new, by_site_key, by_secret_key, check_tenants, refusal, note_tenant,
  index_from,
}
use ghost_trace.Tenant.Uniqueness.{IsUnique, new-IsUnique}
use ghost_trace.Prelude.Text.{codes}
use ghost_trace.Canonical.{Bytes, hash_hex}
use ghost_trace.Tenant.Fingerprint.{fingerprint, sort_texts, insert_text, text_le, join}
use ghost_trace.Tenant.Keys.{Has, new-keys}

abbrev acme : Tenant
acme = record { id = "acme"; site_key = "pk_acme"; secret_key = "sk_acme" }

abbrev globex : Tenant
globex = record { id = "globex"; site_key = "pk_globex"; secret_key = "sk_globex" }

abbrev both : List Tenant
both = acme ∷ globex ∷ []

abbrev both_registry : Registry
both_registry = record { all = both; by_site = ("pk_acme", acme) ∷ ("pk_globex", globex) ∷ [] }

new-IsUnique_example :
    ((r : Registry) × (new both ≡ inr r) × (r.all ≡ both)) ↔ ((both ≢ []) × IsUnique both)
new-IsUnique_example = new-IsUnique both

new-keys_example :
    ((by_secret_key both_registry "sk_globex" ≡ some globex)
      ↔ (Has globex both × (globex.secret_key ≡ "sk_globex")))
    × ((by_site_key both_registry "sk_globex" ≡ some globex)
        ↔ (Has globex both × (globex.site_key ≡ "sk_globex")))
unfolding new check_tenants refusal note_tenant index_from lookup insert
new-keys_example = new-keys both both_registry "sk_globex" globex refl

-- In place of a hash: the bytes themselves behind a mark.
abbrev marked : Bytes → Bytes
marked b = 1 ∷ b

fingerprint_now : fingerprint codes marked both_registry ≡ codes "0161636d6500706b"
unfolding fingerprint hash_hex join sort_texts insert_text text_le
fingerprint_now = refl

fingerprint_swapped :
    fingerprint codes marked (record both_registry { all = globex ∷ acme ∷ [] })
    ≡ fingerprint codes marked both_registry
unfolding fingerprint sort_texts insert_text text_le
fingerprint_swapped = refl
