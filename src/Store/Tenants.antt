-- ===== src/Store/Tenants.antt =====
-- internal/store/postgres/tenants.go.
use jobplane.Base.{String, Option, none, some, [], ◌∷◌, ◌++◌, map, ◌==◌, first, if◌then◌else◌}
use jobplane.Store.Models.{has_json, Uuid, Tenant}
use jobplane.Store.Db.{Db, TenantRow}
use jobplane.Store.Exec.{
  no_rows, unsupported_scan, unique_violation, Result, ok, err, Exec, statement,
}
use jobplane.Store.Jobs.{has_tenant}
use text.Mathlib.Text.{◌==◌ as str_eq}

-- INSERT INTO tenants
unfoldable pub insert_tenant : Tenant → String → Db → Result (Unit {0}) × Db
insert_tenant tenant hashed_key db =
    if has_tenant tenant.id db then (err unique_violation, db) else (
      ok tt,
      record db {
        tenants = db.tenants ++ record { tenant = tenant; api_key_hash = hashed_key } ∷ [];
      },
    )

unfoldable pub create_tenant : Tenant → String → Exec (Unit {0})
unfolding insert_tenant
create_tenant tenant hashed_key = statement (insert_tenant tenant hashed_key)

-- The key, the id and the time of creation stay.
abbrev pub with_settings : Tenant → TenantRow → TenantRow
with_settings t row = record row {
  tenant = record t { id = row.tenant.id; created_at = row.tenant.created_at };
}

unfoldable pub replace_tenant : Tenant → Db → Result (Unit {0}) × Db
replace_tenant t db = (
  ok tt,
  record db {
    tenants = map (λ row. if row.tenant.id == t.id then with_settings t row else row) db.tenants;
  },
)

unfoldable pub update_tenant : Tenant → Exec (Unit {0})
unfolding replace_tenant
update_tenant t = statement (replace_tenant t)

-- The row that `Scan` reads. A NULL in `callback_headers` is an error of `Scan`.
abbrev pub scan_tenant : Option TenantRow → Result Tenant
scan_tenant none = err no_rows
scan_tenant (some row) =
    if has_json row.tenant.callback_headers then ok row.tenant else err unsupported_scan

unfoldable pub get_tenant_by_id : Uuid → Exec Tenant
get_tenant_by_id id =
    statement λ db. (scan_tenant (first (λ row. row.tenant.id == id) db.tenants), db)

unfoldable pub get_tenant_by_api_key_hash : String → Exec Tenant
get_tenant_by_api_key_hash hash =
    statement λ db. (scan_tenant (first (λ row. str_eq row.api_key_hash hash) db.tenants), db)
