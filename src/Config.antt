-- ===== src/Config.antt =====
-- src/config.rs: the configuration, and its default values.
pub mod Loading
use gitoxide_fs.Base.{ℕ, ◌*◌, Bool, true, false, List, [], ◌∷◌}
use gitoxide_fs.Base.Text.{Text, codes}

pub data MergeStrategy : Type 0 where
  three_way ours theirs rebase : MergeStrategy

pub record CommitConfig : Type 0 where
  pub auto_commit : Bool
  pub debounce_ms : ℕ
  pub max_batch_size : ℕ
  pub author_name : Text
  pub author_email : Text

pub record ForkConfig : Type 0 where
  pub enabled : Bool
  pub merge_strategy : MergeStrategy

pub record PerformanceConfig : Type 0 where
  pub cache_size_bytes : ℕ
  pub worker_threads : ℕ
  pub large_file_threshold : ℕ
  pub blob_store_path : Text

pub record Config : Type 0 where
  pub repo_path : Text
  pub mount_point : Text
  pub read_only : Bool
  pub daemon : Bool
  pub commit : CommitConfig
  pub fork : ForkConfig
  pub performance : PerformanceConfig
  pub log_level : Text
  pub ignore_patterns : List Text

abbrev default_true : Bool
default_true = true

abbrev default_debounce_ms : ℕ
default_debounce_ms = 500

abbrev default_max_batch : ℕ
default_max_batch = 100

abbrev default_author : Text
default_author = codes "gitoxide-fs"

abbrev default_email : Text
default_email = codes "gitoxide-fs@localhost"

abbrev default_merge_strategy : MergeStrategy
default_merge_strategy = three_way

abbrev default_cache_size : ℕ
default_cache_size = 256 * 1024 * 1024

abbrev default_workers : ℕ
default_workers = 4

abbrev default_large_file_threshold : ℕ
default_large_file_threshold = 10 * 1024 * 1024

abbrev default_blob_store_path : Text
default_blob_store_path = codes "/data/blobs"

abbrev default_log_level : Text
default_log_level = codes "info"

abbrev pub default_ignore_patterns : List Text
default_ignore_patterns =
    codes "node_modules"
    ∷ codes "__pycache__"
    ∷ codes ".git"
    ∷ codes "venv"
    ∷ codes "target"
    ∷ codes ".local"
    ∷ codes ".cache"
    ∷ codes "*.pyc"
    ∷ []

abbrev default_commit_config : CommitConfig
default_commit_config = record {
  auto_commit = true;
  debounce_ms = default_debounce_ms;
  max_batch_size = default_max_batch;
  author_name = default_author;
  author_email = default_email;
}

abbrev default_fork_config : ForkConfig
default_fork_config = record { enabled = default_true; merge_strategy = default_merge_strategy }

abbrev default_performance_config : PerformanceConfig
default_performance_config = record {
  cache_size_bytes = default_cache_size;
  worker_threads = default_workers;
  large_file_threshold = default_large_file_threshold;
  blob_store_path = default_blob_store_path;
}

-- `Config::new`
abbrev pub new_config : Text → Text → Config
new_config repo_path mount_point = record {
  repo_path = repo_path;
  mount_point = mount_point;
  read_only = false;
  daemon = false;
  commit = default_commit_config;
  fork = default_fork_config;
  performance = default_performance_config;
  log_level = default_log_level;
  ignore_patterns = default_ignore_patterns;
}
