-- ===== src/Tests/Runners.antt =====
-- The commands of the runner (runner.go) at concrete configurations.
use yuanyi.Base.{ℤ, pos, true, false, [], ◌∷◌, ◌++◌, ◌≡◌, refl, length}
use yuanyi.Strings.{Text, codes}
use yuanyi.Runner.{
  Machine, RunConfig, start_vllm_container, remove_container, run_container, kv_port,
}
use yuanyi.Runner.Windows.{choose_model, served_names}
use yuanyi.Runner.Names.{IsServed, served_names-choose_model}

abbrev config : RunConfig ℤ
config = record {
  vllm = record {
    model_name = codes "my-model";
    max_model_len = pos 4096;
    max_num_seqs = pos 0;
    gpu_memory_utilization = pos 1;
    port = pos 8100;
    tensor_parallel_size = pos 1;
    dtype = codes "float16";
    kv_role = codes "kv_both";
    mooncake_bootstrap_port = pos 8998;
    mooncake_abort_request_timeout = pos 15;
    attention_backend = codes "FLASH_ATTN";
    placement_group_bundle_strategy = codes "SPREAD";
  };
  docker = record {
    container_name = codes "vllm_node";
    image = codes "image";
    network = codes "host";
    shm_size = codes "16gb";
    iface = codes "eth0";
  };
  paths = record {
    config_path = codes "config.json";
    model_path = codes "model";
    mooncake_path = codes "mooncake.json";
  };
  proxy_port = pos 50006;
}

abbrev ready : Machine
ready = record {
  found = λ p. true;
  missing = λ p. false;
  starts = λ c. true;
  cancelled = false;
  piped = true;
  all_in_one = false;
  direct_mode = false;
  is_windows = false;
}

abbrev show_float : ℤ → Text
show_float x = codes "1.00"

abbrev abs : Text → Text
abs p = codes "/app/" ++ p

four_commands : length (start_vllm_container show_float abs ready config) ≡ 4
unfolding start_vllm_container
four_commands = refl

-- Ray did not start.
two_commands :
    start_vllm_container show_float abs (record ready { starts = λ c. false }) config
    ≡ remove_container config.docker ∷ run_container show_float abs config ∷ []
unfolding start_vllm_container
two_commands = refl

-- The gateway's port is avoided, but not if it is the default itself.
clash : kv_port (pos 8998) (pos 8998) ≡ pos 8998
unfolding kv_port
clash = refl

served_names-choose_model_example :
    IsServed
      (codes "yuanyi-default")
      (choose_model [] (codes "yuanyi-default")).0
      (served_names (codes "yuanyi-default") (choose_model [] (codes "yuanyi-default")))
served_names-choose_model_example = served_names-choose_model (codes "yuanyi-default")

both_names :
    served_names (codes "yuanyi-default") (choose_model [] (codes "yuanyi-default"))
    ≡ codes "yuanyi-default" ∷ codes "Qwen/Qwen3-4B-AWQ" ∷ []
unfolding served_names choose_model
both_names = refl
