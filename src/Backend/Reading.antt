-- ===== src/Backend/Reading.antt =====
-- The operations that only read leave the files as they are.
use gitoxide_fs.Base.{◌≡◌, arith}
use gitoxide_fs.Base.Text.{Text}
use gitoxide_fs.Config.{Config}
use gitoxide_fs.Os.{Os}
use gitoxide_fs.Backend.Files.{read_file}
use gitoxide_fs.Backend.Directories.{stat, list_dir}
use gitoxide_fs.Backend.Links.{read_symlink}

module _ (O : Os) (config : Config) (path : Text) (s : O.State) where
  pub read_file_unchanged : (read_file O config path s).1 ≡ s
  unfolding read_file
  read_file_unchanged = ground arith

  pub stat_unchanged : (stat O config path s).1 ≡ s
  unfolding stat
  stat_unchanged = ground arith

  pub list_dir_unchanged : (list_dir O config path s).1 ≡ s
  unfolding list_dir
  list_dir_unchanged = ground arith

  pub read_symlink_unchanged : (read_symlink O config path s).1 ≡ s
  unfolding read_symlink
  read_symlink_unchanged = ground arith
