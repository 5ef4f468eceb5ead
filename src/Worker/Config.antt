-- ===== src/Worker/Config.antt =====
-- internal/worker/agent.go, New: the settings of an agent, with defaults for what is not positive.
use Prim.Native.Char.{Char}
use Prim.Native.String.{[] as no_text, ◌∷◌ as before}
use jobplane.Base.{ℕ, ◌*◌, String, if◌then◌else◌}
use jobplane.Base.Int.{ℤ, pos, leb_ℤ}
use jobplane.Base.Text.{is_char}
use jobplane.Store.Models.{second, minute}

pub record AgentConfig : Type 0 where
  pub id : String
  pub concurrency : ℤ
  pub poll_interval : ℤ
  pub controller_url : String
  pub max_backoff : ℤ
  pub heartbeat_interval : ℤ
  pub system_secret : String

abbrev slash : Char
slash = "/"

-- `if n <= 0 { n = default }`
abbrev pub or_default : ℤ → ℕ → ℤ
or_default n default = if leb_ℤ n (pos 0) then pos default else n

-- One slash at the end is cut off.
unfoldable pub trim_slash : String → String
trim_slash no_text = no_text
trim_slash (before c no_text) = if is_char c slash then no_text else before c no_text
trim_slash (before c (before d s)) = before c (trim_slash (before d s))

unfoldable pub new_agent : AgentConfig → AgentConfig
unfolding trim_slash
new_agent config = record config {
  concurrency = or_default config.concurrency 1;
  poll_interval = or_default config.poll_interval second;
  max_backoff = or_default config.max_backoff (30 * second);
  heartbeat_interval = or_default config.heartbeat_interval (2 * minute);
  controller_url = trim_slash config.controller_url;
}
