-- ===== src/Config/Valid.antt =====
-- What the controller and the worker can rely on after Load (internal/config/config.go).
use text.Mathlib.Text.{◌==◌ as str_eq}
use jobplane.Base.{◌≡◌, true, false}
use jobplane.Base.Int.{pos, ◌≤ℤ◌}
use jobplane.Config.{Viper, Config, get_string, is_runtime}

-- The settings have a database and a secret, name a runtime and extend a visibility, and the texts
-- among them are those of the sources.
pub record IsValid (v : Viper) (cfg : Config) : Type 0 where
  pub has_database : str_eq cfg.database_url "" ≡ false
  pub has_secret : str_eq cfg.system_secret "" ≡ false
  pub has_runtime : is_runtime v cfg.runtime ≡ true
  pub extends : pos 1 ≤ℤ cfg.heart_visibility_extension
  pub same_database : cfg.database_url ≡ get_string v "database_url"
  pub same_secret : cfg.system_secret ≡ get_string v "system_secret"
  pub same_runtime : cfg.runtime ≡ get_string v "runtime"

module _ (v : Viper) where
  abbrev Comes : Config → Type 0
  Comes cfg =
      (cfg.database_url ≡ get_string v "database_url")
      × (cfg.system_secret ≡ get_string v "system_secret")
      × (cfg.runtime ≡ get_string v "runtime")
