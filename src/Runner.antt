-- ===== src/Runner.antt =====
-- runner.go: the commands that start and stop the model server. A command is its program and its
-- arguments; lines that only go to the log are left out. `abs` is filepath.Abs, `show_float` the
-- verb %.2f.
pub mod Windows
pub mod Names
use yuanyi.Base.{
  ℤ, pos, Bool, true, false, ◌&&◌, ◌||◌, not, List, [], ◌∷◌, ◌++◌, Option, none, some, is_empty,
  if◌then◌else◌, leb_ℤ, eq_ℤ,
}
use yuanyi.Strings.{Text, codes}
use yuanyi.Telemetry.{show_int}

abbrev pub Command : Type 0
Command = List Text

pub record VllmConfig (F : Type 0) : Type 0 where
  pub model_name : Text
  pub max_model_len : ℤ
  pub max_num_seqs : ℤ
  pub gpu_memory_utilization : F
  pub port : ℤ
  pub tensor_parallel_size : ℤ
  pub dtype : Text
  pub kv_role : Text
  pub mooncake_bootstrap_port : ℤ
  pub mooncake_abort_request_timeout : ℤ
  pub attention_backend : Text
  pub placement_group_bundle_strategy : Text

pub record DockerConfig : Type 0 where
  pub container_name : Text
  pub image : Text
  pub network : Text
  pub shm_size : Text
  pub iface : Text

pub record PathsConfig : Type 0 where
  pub config_path : Text
  pub model_path : Text
  pub mooncake_path : Text

-- The parts of the configuration that the runner reads.
pub record RunConfig (F : Type 0) : Type 0 where
  pub vllm : VllmConfig F
  pub docker : DockerConfig
  pub paths : PathsConfig
  pub proxy_port : ℤ

-- What the operating system answers: os.Stat says that a file is there, or that it is missing;
-- `starts` whether a command can be started or, for docker run, succeeds; `cancelled` whether the
-- context ends during the wait; `piped` whether the output can be read.
pub record Machine : Type 0 where
  pub found : Text → Bool
  pub missing : Text → Bool
  pub starts : Command → Bool
  pub cancelled : Bool
  pub piped : Bool
  pub all_in_one : Bool
  pub direct_mode : Bool
  pub is_windows : Bool

unfoldable pub is_direct_execution : Machine → Bool
is_direct_execution os =
    os.all_in_one
    || os.direct_mode
    || (os.found (codes "/opt/dynamo/venv/bin/vllm") && os.missing (codes "/var/run/docker.sock"))

pub data Mode : Type 0 where
  windows direct container : Mode

-- Which of the three ways Start takes.
unfoldable pub mode_of : Machine → Mode
unfolding is_direct_execution
mode_of os = if os.is_windows then windows else if is_direct_execution os then direct else container

-- The port of the KV transfer, with its default.
unfoldable pub kv_port : ℤ → ℤ → ℤ
kv_port configured proxy_port =
    if leb_ℤ configured (pos 0) || eq_ℤ configured proxy_port then pos 8998 else configured

-- The arguments of `ray start`.
abbrev pub ray_flags : List Text
ray_flags =
    codes "start"
    ∷ codes "--head"
    ∷ codes "--dashboard-host"
    ∷ codes "0.0.0.0"
    ∷ codes "--dashboard-port"
    ∷ codes "8275"
    ∷ codes "--port"
    ∷ codes "6389"
    ∷ codes "--disable-usage-stats"
    ∷ codes "--block"
    ∷ []

abbrev pub kv_transfer_config : Text → Text
kv_transfer_config role =
    codes "{\"kv_connector\":\"MooncakeConnector\",\"kv_role\":\"" ++ (role ++ codes "\"}")

abbrev pub remove_container : DockerConfig → Command
remove_container d = codes "docker" ∷ codes "rm" ∷ codes "-f" ∷ d.container_name ∷ []

module _ {F : Type 0} (show_float : F → Text) (abs : Text → Text) where
  -- The container of Ray, with the three files mounted.
  unfoldable pub run_container : RunConfig F → Command
  run_container cfg =
      codes "docker"
      ∷ codes "run"
      ∷ codes "-d"
      ∷ codes "--name"
      ∷ cfg.docker.container_name
      ∷ (codes "--net=" ++ cfg.docker.network)
      ∷ codes "--gpus"
      ∷ codes "all"
      ∷ codes "--ipc=host"
      ∷ (codes "--shm-size=" ++ cfg.docker.shm_size)
      ∷ codes "-v"
      ∷ (abs cfg.paths.config_path ++ codes ":/config.json")
      ∷ codes "-v"
      ∷ (abs cfg.paths.model_path ++ codes ":/data/model")
      ∷ codes "-v"
      ∷ (abs cfg.paths.mooncake_path ++ codes ":/data/mooncake.json")
      ∷ codes "-e"
      ∷ (codes "NCCL_SOCKET_IFNAME=" ++ cfg.docker.iface)
      ∷ codes "-e"
      ∷ (codes "GLOO_SOCKET_IFNAME=" ++ cfg.docker.iface)
      ∷ codes "--entrypoint"
      ∷ codes "/opt/dynamo/venv/bin/ray"
      ∷ cfg.docker.image
      ∷ ray_flags

  -- The arguments behind the model's path; both modes write out the same list.
  unfoldable pub serve_flags : VllmConfig F → List Text
  unfolding show_int
  serve_flags v =
      codes "--served-model-name"
      ∷ v.model_name
      ∷ codes "--dtype"
      ∷ v.dtype
      ∷ codes "--max-model-len"
      ∷ show_int v.max_model_len
      ∷ codes "--max-num-seqs"
      ∷ show_int v.max_num_seqs
      ∷ codes "--gpu-memory-utilization"
      ∷ show_float v.gpu_memory_utilization
      ∷ codes "--port"
      ∷ show_int v.port
      ∷ codes "--tensor-parallel-size"
      ∷ show_int v.tensor_parallel_size
      ∷ codes "--kv-transfer-config"
      ∷ kv_transfer_config v.kv_role
      ∷ codes "--enable-auto-tool-choice"
      ∷ codes "--enable-prompt-tokens-details"
      ∷ codes "--tool-call-parser"
      ∷ codes "qwen3_coder"
      ∷ []

  -- The settings that both modes pass in the environment.
  unfoldable pub serve_env : Text → RunConfig F → List Text
  unfolding show_int kv_port
  serve_env mooncake cfg =
      (codes "PLACEMENT_GROUP_BUNDLE_STRATEGY=" ++ cfg.vllm.placement_group_bundle_strategy)
      ∷ (codes "ATTENTION_BACKEND=" ++ cfg.vllm.attention_backend)
      ∷ (codes "MOONCAKE_CONFIG_PATH=" ++ mooncake)
      ∷ (codes "VLLM_MOONCAKE_BOOTSTRAP_PORT="
          ++ show_int (kv_port cfg.vllm.mooncake_bootstrap_port cfg.proxy_port))
      ∷ (codes "VLLM_MOONCAKE_ABORT_REQUEST_TIMEOUT="
          ++ show_int cfg.vllm.mooncake_abort_request_timeout)
      ∷ []

  unfoldable pub exec_container : RunConfig F → Command
  unfolding serve_flags show_int kv_port
  exec_container cfg =
      codes "docker"
      ∷ codes "exec"
      ∷ codes "-e"
      ∷ (codes "PLACEMENT_GROUP_BUNDLE_STRATEGY=" ++ cfg.vllm.placement_group_bundle_strategy)
      ∷ codes "-e"
      ∷ codes "VLLM_USE_V1=1"
      ∷ codes "-e"
      ∷ (codes "ATTENTION_BACKEND=" ++ cfg.vllm.attention_backend)
      ∷ codes "-e"
      ∷ codes "MOONCAKE_CONFIG_PATH=/data/mooncake.json"
      ∷ codes "-e"
      ∷ (codes "VLLM_MOONCAKE_BOOTSTRAP_PORT="
          ++ show_int (kv_port cfg.vllm.mooncake_bootstrap_port cfg.proxy_port))
      ∷ codes "-e"
      ∷ (codes "VLLM_MOONCAKE_ABORT_REQUEST_TIMEOUT="
          ++ show_int cfg.vllm.mooncake_abort_request_timeout)
      ∷ cfg.docker.container_name
      ∷ codes "/opt/dynamo/venv/bin/vllm"
      ∷ codes "serve"
      ∷ codes "/data/model"
      ∷ serve_flags cfg.vllm

  abbrev pub follow_logs : DockerConfig → Command
  follow_logs d = codes "docker" ∷ codes "logs" ∷ codes "-f" ∷ d.container_name ∷ []

  -- One of the three paths is missing.
  unfoldable pub lacks_files : Machine → PathsConfig → Bool
  lacks_files os p =
      os.missing (abs p.config_path)
      || os.missing (abs p.model_path)
      || os.missing (abs p.mooncake_path)

  -- The commands in the order in which they are started.
  unfoldable pub start_vllm_container : Machine → RunConfig F → List Command
  unfolding run_container exec_container lacks_files
  start_vllm_container os cfg =
      if lacks_files os cfg.paths
      then []
      else if not (os.starts (run_container cfg))
      then remove_container cfg.docker ∷ run_container cfg ∷ []
      else if os.cancelled || not os.piped
      then remove_container cfg.docker ∷ run_container cfg ∷ follow_logs cfg.docker ∷ []
      else remove_container cfg.docker
        ∷ run_container cfg
        ∷ follow_logs cfg.docker
        ∷ exec_container cfg
        ∷ []

  -- A configured path, or that of the image if only this one is there.
  unfoldable pub or_image : Machine → Text → Text → Text
  or_image os path image_path = if os.missing path && os.found image_path then image_path else path

  abbrev pub binary : Machine → Text → Text → Text
  binary os path name = if os.missing path then name else path

  -- The commands, each with what is added to its environment.
  unfoldable pub start_vllm_directly : Machine → RunConfig F → List (Command × List Text)
  unfolding or_image serve_flags serve_env
  start_vllm_directly os cfg =
      let model = or_image os (abs cfg.paths.model_path) (codes "/data/model") in
      let mooncake = or_image os (abs cfg.paths.mooncake_path) (codes "/data/mooncake.json") in
      let ray = binary os (codes "/opt/dynamo/venv/bin/ray") (codes "ray") ∷ ray_flags in
      let vllm =
        binary os (codes "/opt/dynamo/venv/bin/vllm") (codes "vllm")
        ∷ codes "serve"
        ∷ model
        ∷ serve_flags cfg.vllm in
      if not (os.starts ray) || os.cancelled || not os.piped
      then (ray, []) ∷ []
      else (ray, []) ∷ (vllm, serve_env mooncake cfg) ∷ []

-- What Stop runs besides ending the processes: the container goes, if one was started.
unfoldable pub stop_commands : Machine → DockerConfig → List Command
unfolding is_direct_execution
stop_commands os d = if os.is_windows || is_direct_execution os then [] else remove_container d ∷ []
