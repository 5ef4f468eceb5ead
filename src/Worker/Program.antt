-- ===== src/Worker/Program.antt =====
-- cmd/worker/main.go: which runtime and which settings the worker starts with.
use text.Mathlib.Text.{◌==◌ as str_eq}
use jobplane.Base.{String, if◌then◌else◌}
use jobplane.Config.{Config}
use jobplane.Worker.Config.{AgentConfig, new_agent}
use jobplane.Worker.Runtime.Exec.{new_exec_runtime}
use jobplane.Worker.Runtime.Kubernetes.{KubernetesConfig, with_defaults}

-- The runtime, with what it is made of: the directory of executions, nothing, or the settings.
pub data Chosen : Type 0 where
  chosen_exec : String → Chosen
  chosen_docker : Chosen
  chosen_kubernetes : KubernetesConfig → Chosen

unfoldable pub kubernetes_config_of : Config → KubernetesConfig
kubernetes_config_of cfg = record {
  namespace = cfg.kubernetes_namespace;
  service_account = cfg.kubernetes_service_account;
  default_cpu_limit = cfg.kubernetes_cpu_limit;
  default_memory_limit = cfg.kubernetes_memory_limit;
}

unfoldable pub choose_runtime : String → Config → Chosen
unfolding kubernetes_config_of new_exec_runtime with_defaults
choose_runtime temp_dir cfg =
    if str_eq cfg.runtime "exec"
    then chosen_exec (new_exec_runtime temp_dir cfg.runtime_work_dir)
    else if str_eq cfg.runtime "kubernetes"
    then chosen_kubernetes (with_defaults (kubernetes_config_of cfg))
    else chosen_docker

unfoldable pub agent_config_of : Config → AgentConfig
unfolding new_agent
agent_config_of cfg = new_agent (record {
  id = "";
  concurrency = cfg.worker_concurrency;
  poll_interval = cfg.worker_poll_interval;
  controller_url = cfg.controller_url;
  max_backoff = cfg.worker_max_backoff;
  heartbeat_interval = cfg.worker_heartbeat_interval;
  system_secret = cfg.system_secret;
})
