-- ===== src/Runner/Windows.antt =====
-- startVLLMWindows (runner.go). `join` is filepath.Join and `dir` filepath.Dir; `high` is 0.65.
use yuanyi.Base.{
  ℤ, pos, Bool, ◌&&◌, ◌||◌, not, List, [], ◌∷◌, ◌++◌, Option, none, some, is_empty, if◌then◌else◌,
  leb_ℤ,
}
use yuanyi.Float.{Float64}
use yuanyi.Strings.{Text, codes, text_eq}
use yuanyi.Telemetry.{show_int}
use yuanyi.Runner.{Command, Machine, VllmConfig, RunConfig}

-- The first candidate that is there.
unfoldable pub first_found : (Text → Bool) → List Text → Option Text
first_found found [] = none
first_found found (p ∷ ps) = let rest = first_found found ps in if found p then some p else rest

-- The name of a model that Windows does not load as it is.
unfoldable pub is_stock_model : Text → Bool
unfolding text_eq
is_stock_model name =
    is_empty name
    || text_eq name (codes "Qwen3-4B-AWQ")
    || text_eq name (codes "Qwen/Qwen3-4B-AWQ")
    || text_eq name (codes "yuanyi-default")

abbrev pub fallback_model : Text
fallback_model = codes "Qwen/Qwen3-4B-AWQ"

unfoldable pub local_model_path : Machine → (Text → Text) → Text → Text
unfolding text_eq
local_model_path os abs path =
    if not (is_empty path) && not (text_eq path (codes "/data/model")) && os.found path
    then abs path
    else []

-- The model to load, and substitutedTo.
unfoldable pub choose_model : Text → Text → Text × Text
unfolding is_stock_model
choose_model local configured =
    if not (is_empty local)
    then (local, [])
    else if is_stock_model configured
    then (fallback_model, fallback_model)
    else (configured, [])

-- The names that the server answers to.
unfoldable pub served_names : Text → Text × Text → List Text
unfolding text_eq
served_names configured (model, substituted) =
    let own = if is_empty configured then [] else configured ∷ [] in
    let names =
      if not (is_empty substituted) && not (text_eq substituted configured)
      then own ++ substituted ∷ []
      else own in
    if is_empty names then model ∷ [] else names

abbrev pub number_or : ℤ → ℤ → ℤ
number_or n default = if leb_ℤ n (pos 0) then default else n

module _ {F : Type 0} ⦃fl : Float64 F⦄ (show_float : F → Text) (high : F) (abs dir : Text → Text)
    (join : List Text → Text) where
  abbrev pub positive_float_or : F → F → F
  positive_float_or x default =
      if fl.lt x (fl.of_int (pos 0)) || fl.eq x (fl.of_int (pos 0)) then default else x

  unfoldable pub vllm_args : VllmConfig F → Text × Text → List Text
  unfolding served_names show_int
  vllm_args v (model, substituted) =
      codes "--model"
      ∷ model
      ∷ codes "--served-model-name"
      ∷ (served_names v.model_name (model, substituted)
          ++ codes "--quantization"
            ∷ codes "awq"
            ∷ codes "--gpu-memory-utilization"
            ∷ show_float (positive_float_or v.gpu_memory_utilization high)
            ∷ codes "--max-model-len"
            ∷ show_int (number_or v.max_model_len (pos 2048))
            ∷ codes "--max-num-seqs"
            ∷ show_int (number_or v.max_num_seqs (pos 32))
            ∷ codes "--port"
            ∷ show_int (number_or v.port (pos 8100))
            ∷ codes "--host"
            ∷ codes "0.0.0.0"
            ∷ codes "--trust-remote-code"
            ∷ codes "--enforce-eager"
            ∷ codes "--enable-auto-tool-choice"
            ∷ codes "--enable-prompt-tokens-details"
            ∷ codes "--tool-call-parser"
            ∷ codes "qwen3_coder"
            ∷ [])

  abbrev pub venv_candidates : List Text
  venv_candidates =
      join (codes "." ∷ codes ".venv" ∷ codes "Scripts" ∷ codes "python.exe" ∷ [])
      ∷ join (
          codes "."
          ∷ codes "vllm-windows"
          ∷ codes ".venv"
          ∷ codes "Scripts"
          ∷ codes "python.exe"
          ∷ [])
      ∷ join (
          codes ".."
          ∷ codes "vllm-windows"
          ∷ codes ".venv"
          ∷ codes "Scripts"
          ∷ codes "python.exe"
          ∷ [])
      ∷ join (codes ".." ∷ codes ".venv" ∷ codes "Scripts" ∷ codes "python.exe" ∷ [])
      ∷ []

  abbrev pub script_candidates : List Text
  script_candidates =
      join (codes "." ∷ codes "serve_api.py" ∷ [])
      ∷ join (codes ".." ∷ codes "serve_api.py" ∷ [])
      ∷ join (codes "." ∷ codes "vllm-windows" ∷ codes "serve_api.py" ∷ [])
      ∷ []

  -- pythonBin and venvRoot; a path that filepath.Abs cannot make absolute counts as not found.
  unfoldable pub find_python : Machine → Text × Text
  unfolding first_found
  find_python os = elim (first_found os.found venv_candidates) [
    | none ↦ (codes "python", [])
    | some p ↦
        let python = abs p in
        if is_empty python then (codes "python", dir (dir [])) else (python, dir (dir python))
  ]

  unfoldable pub serve_script : Machine → Text
  unfolding first_found
  serve_script os = elim (first_found os.found script_candidates) [ none ↦ [] | some p ↦ abs p ]

  abbrev pub cudart_path : Text → Text
  cudart_path venv_root = join (
      venv_root
      ∷ codes "Lib"
      ∷ codes "site-packages"
      ∷ codes "torch"
      ∷ codes "lib"
      ∷ codes "cudart64_12.dll"
      ∷ [])

  unfoldable pub windows_env : Machine → Text → List Text
  windows_env os venv_root =
      codes "USE_LIBUV=0"
      ∷ codes "VLLM_USE_V1=0"
      ∷ codes "CUDA_VISIBLE_DEVICES=0"
      ∷ codes "HF_HUB_DISABLE_SYMLINKS_WARNING=1"
      ∷ codes "VLLM_WORKER_MULTIPROC_METHOD=spawn"
      ∷ (if not (is_empty venv_root) && os.found (cudart_path venv_root)
          then (codes "VLLM_CUDART_SO_PATH=" ++ cudart_path venv_root) ∷ []
          else [])

  -- The command and what is added to its environment, none if the output cannot be read.
  unfoldable pub start_vllm_windows : Machine → RunConfig F → Option (Command × List Text)
  unfolding local_model_path choose_model vllm_args find_python serve_script windows_env
  start_vllm_windows os cfg =
      let (python, venv_root) = find_python os in
      let script = serve_script os in
      let args =
        vllm_args cfg.vllm
          (choose_model (local_model_path os abs cfg.paths.model_path) cfg.vllm.model_name) in
      let command =
        python
        ∷ (if is_empty script
            then codes "-u" ∷ codes "-m" ∷ codes "vllm.entrypoints.openai.api_server" ∷ args
            else script ∷ args) in
      if os.piped then some (command, windows_env os venv_root) else none
