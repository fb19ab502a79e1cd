-- ===== src/Mounts/Options.antt =====
-- The options that `mount` and `mount_with_options` of src/fs.rs give to `fuser`.
use gitoxide_fs.Base.{List, [], ◌∷◌, ◌++◌, map, if◌then◌else◌, ◌==◌, list_eq, nat_eq}
use gitoxide_fs.Base.Text.{Text, codes}
use gitoxide_fs.Config.{Config}

-- `fuser::MountOption`, the options that the program gives
pub data MountOption : Type 0 where
  fs_name custom : Text → MountOption
  auto_unmount allow_other allow_root ro rw : MountOption

abbrev read_only_option : Config → List MountOption
read_only_option config = if config.read_only then ro ∷ [] else []

-- The options of `mount`
unfoldable pub mount_options : Config → List MountOption
mount_options config = fs_name (codes "gitoxide-fs") ∷ auto_unmount ∷ read_only_option config

-- One option of `mount_with_options`
unfoldable pub extra_option : Text → MountOption
extra_option opt =
    if opt == codes "auto_unmount"
    then auto_unmount
    else if opt == codes "allow_other"
    then allow_other
    else if opt == codes "allow_root"
    then allow_root
    else if opt == codes "ro"
    then ro
    else if opt == codes "rw"
    then rw
    else custom opt

unfoldable pub options_with : Config → List Text → List MountOption
options_with config extra_options =
    fs_name (codes "gitoxide-fs") ∷ (read_only_option config ++ map extra_option extra_options)
