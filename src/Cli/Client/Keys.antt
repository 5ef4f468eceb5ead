-- ===== src/Cli/Client/Keys.antt =====
-- The key that CreateTenant hands out lets its tenant in
-- (internal/controller/handlers/tenants.go, internal/controller/middleware/auth.go and
-- cmd/cli/cmd/client.go).
use Prim.Native.Char.{Char}
use Prim.Native.String.{◌++◌ as followed_by, ◌∷◌ as before}
use text.Mathlib.Text.{◌==◌ as str_eq}
use text.Mathlib.TextLemmas.{nil-append, cons-append, append_assoc}
use jobplane.Base.{
  ◌≡◌, refl, sym, ap, subst, ◌∙◌, String, false, some, [], ◌∷◌, ◌++◌, any, first, first-append,
}
use jobplane.Base.Text.{split, Lacks, split-append, split-Lacks, cons-ne-empty, str_eq_refl}
use jobplane.Store.Db.{Db, TenantRow}
use jobplane.Store.Jobs.{has_tenant}
use jobplane.Api.{CreateTenantRequest, tenant_created}
use jobplane.Controller.Handlers.{hash_key, Library, Call, Server, going, serve, serving}
use jobplane.Controller.Handlers.Tenants.{new_tenant, create_tenant_handler}
use jobplane.Controller.Middleware.Auth.{space, bearer_token, find_tenant, authenticate}
use jobplane.Cli.Client.{JobClient, authorization_of}

-- The header's text, with the space between its parts.
authorization_parts :
    (client : JobClient)
    → authorization_of client ≡ followed_by "Bearer" (before space client.token)
authorization_parts client =
    append_assoc "Bearer" " " client.token
    ∙ ap (followed_by "Bearer")
        (cons-append space "" client.token ∙ ap (before space) (nil-append client.token))

abbrev first_letter : Char
first_letter = "B"

-- The controller reads the client's token from the header.
bearer_token-authorization_of :
    (client : JobClient) (s : Server)
    → Lacks space client.token
    → bearer_token (authorization_of client) s ≡ (going client.token, s)
unfolding bearer_token split
bearer_token-authorization_of client s h =
    let parts : split space (authorization_of client) ≡ "Bearer" ∷ client.token ∷ [] =
      ap (split space) (authorization_parts client)
      ∙ split-append space "Bearer" client.token
      ∙ ap (λ l. split space "Bearer" ++ l) (split-Lacks space client.token h) in
    let filled : str_eq (authorization_of client) "" ≡ false =
      subst (λ t. str_eq t "" ≡ false)
        (sym (
          authorization_parts client
          ∙ cons-append first_letter "earer" (before space client.token)))
        (cons-ne-empty first_letter (followed_by "earer" (before space client.token))) in
    rw (filled, parts) refl

-- No row has the hash.
abbrev pub IsUnused : String → Db → Type 0
IsUnused hash db = any (λ row. str_eq row.api_key_hash hash) db.tenants ≡ false

module _ (lib : Library) (call : Call) (key : String) (req : CreateTenantRequest) (db : Db) where
  -- The tables with the new tenant.
  abbrev pub with_tenant : Db
  with_tenant = record db {
    tenants =
        db.tenants
        ++ record { tenant = new_tenant lib call req; api_key_hash = hash_key lib key } ∷ [];
  }

  created :
      has_tenant call.new_uuid db ≡ false
      → serve (create_tenant_handler lib call (some key) (some req)) (serving db) ≡ (
        record { status = 201; body = tenant_created call.new_uuid req.name key },
        serving with_tenant,
      )
  unfolding create_tenant_handler new_tenant
  created fresh = rw fresh refl

  found :
      IsUnused (hash_key lib key) db
      → find_tenant lib key (serving with_tenant)
        ≡ (going (new_tenant lib call req), serving with_tenant)
  unfolding find_tenant new_tenant
  found unused =
      let row : TenantRow = record {
        tenant = new_tenant lib call req;
        api_key_hash = hash_key lib key;
      } in
      let hit : first (λ row. str_eq row.api_key_hash (hash_key lib key)) with_tenant.tenants
          ≡ some row =
        first-append (λ row. str_eq row.api_key_hash (hash_key lib key)) db.tenants (row ∷ [])
        ∙ rw (unused, str_eq_refl) refl in
      rw hit refl

  -- A tenant that CreateTenant has made is the one that its key lets in: with the key as its token, a
  -- client sends a header from which the controller finds the new tenant. This holds where no
  -- statement is lost, the new id is free, no row has the key's hash, and the key has no space.
  pub created_key_authenticates :
      (client : JobClient)
      → client.token ≡ key
      → Lacks space key
      → has_tenant call.new_uuid db ≡ false
      → IsUnused (hash_key lib key) db
      → let (r, s) = serve (create_tenant_handler lib call (some key) (some req)) (serving db) in
        (r ≡ record { status = 201; body = tenant_created call.new_uuid req.name key })
        × (authenticate lib (authorization_of client) s ≡ (going (new_tenant lib call req), s))
  unfolding authenticate
  created_key_authenticates client same plain fresh unused =
      let token : bearer_token (authorization_of client) (serving with_tenant)
          ≡ (going key, serving with_tenant) =
        bearer_token-authorization_of client (serving with_tenant)
          (subst (Lacks space) (sym same) plain)
        ∙ ap (λ k. (going k, serving with_tenant)) same in
      subst
        (λ p.
          (p.0 ≡ record { status = 201; body = tenant_created call.new_uuid req.name key })
          × (authenticate lib (authorization_of client) p.1
              ≡ (going (new_tenant lib call req), p.1)))
        (sym (created fresh)) (refl, rw token (found unused))
