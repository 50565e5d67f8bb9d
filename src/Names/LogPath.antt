-- ===== src/Names/LogPath.antt =====
-- `PathBuf::join`, on Unix, and `LogHub::get_log_file_path_for_key` of mcproc/src/daemon/log/mod.rs.
use mcproc.Prelude.{[], ◌∷◌, ◌++◌, Bool, true, false, ◌==◌, if◌then◌else◌, Text, codes}
use mcproc.Names.ProcessKey.{ProcessKey, sanitized_name}

-- `Path::is_absolute`
unfoldable pub is_absolute : Text → Bool
is_absolute [] = false
is_absolute (c ∷ s) = c == b'/'

-- Whether a separator has to be put behind a path: not behind an empty path or a separator.
unfoldable pub needs_separator : Text → Bool
needs_separator [] = false
needs_separator (c ∷ []) = if c == b'/' then false else true
needs_separator (c ∷ d ∷ s) = needs_separator (d ∷ s)

-- `path.join(other)`: an absolute `other` replaces the path
unfoldable pub join : Text → Text → Text
unfolding is_absolute needs_separator
join path other =
    if is_absolute other
    then other
    else path ++ ((if needs_separator path then codes "/" else []) ++ other)

-- `get_log_file_path_for_key`: `<log_dir>/<project>/<name>.log`
unfoldable pub get_log_file_path_for_key : Text → ProcessKey → Text
unfolding join sanitized_name
get_log_file_path_for_key log_dir key =
    join (join log_dir key.project) (sanitized_name key ++ codes ".log")
