-- ===== src/Config/Loading.antt =====
-- `Config::from_file` and `debounce_duration` of src/config.rs. Reading TOML is that of the crate
-- `toml`.
use gitoxide_fs.Base.{ℕ, ◌*◌}
use gitoxide_fs.Base.Text.{Text}
use gitoxide_fs.Error.{Error, config}
use gitoxide_fs.Error.Monad.{Result, map_err, and_then}
use gitoxide_fs.Config.{Config}
use gitoxide_fs.Os.{Os}
use gitoxide_fs.Backend.Refs.{read_to_string}

-- `Config::from_file`; `from_str` gives the text of its error.
unfoldable pub from_file :
    (O : Os) → (Text → Result Text Config) → Text → O.State → Result Error Config
from_file O from_str path s =
    and_then (read_to_string O path s) (λ contents. map_err config (from_str contents))

-- `Config::debounce_duration`, in nanoseconds
unfoldable pub debounce_duration : Config → ℕ
debounce_duration c = c.commit.debounce_ms * 1_000_000
