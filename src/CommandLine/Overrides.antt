-- ===== src/CommandLine/Overrides.antt =====
-- What becomes of a configuration file under the flags of `gofs mount` in src/main.rs.
use gitoxide_fs.Base.{◌≡◌, refl, arith, Bool, true, false, ◌||◌, ℕ, List, [], ◌∷◌}
use gitoxide_fs.Base.Text.{Text}
use gitoxide_fs.Config.{Config}
use gitoxide_fs.Mounts.{
  MountOption, ro, rw, fs_name, custom, auto_unmount, allow_other, allow_root, mount_options,
}
use gitoxide_fs.CommandLine.{MountArguments, mount_config}

abbrev is_ro : MountOption → Bool
is_ro ro = true
is_ro rw = false
is_ro (fs_name t) = false
is_ro (custom t) = false
is_ro auto_unmount = false
is_ro allow_other = false
is_ro allow_root = false

-- Whether a mount is read-only
unfoldable pub mounts_ro : List MountOption → Bool
mounts_ro [] = false
mounts_ro (o ∷ rest) = is_ro o || mounts_ro rest

-- What a configuration file says of the repository, the mount point, read-only mode, running as a
-- daemon and the debounce has no effect; the kernel is told that the mount is read-only exactly if
-- the flag was given.
pub mount_config_flags :
    (a : MountArguments) (c : Config) (repo_path mount_point : Text) (read_only daemon : Bool)
    (debounce_ms : ℕ)
    → (mount_config a (record c {
      repo_path = repo_path;
      mount_point = mount_point;
      read_only = read_only;
      daemon = daemon;
      commit = record c.commit { debounce_ms = debounce_ms };
    })
        ≡ mount_config a c)
      × (mounts_ro (mount_options (mount_config a c)) ≡ a.read_only)
unfolding mount_config mount_options mounts_ro
mount_config_flags a c repo_path mount_point read_only daemon debounce_ms = (refl, ground arith)
