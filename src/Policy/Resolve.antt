-- ===== src/Policy/Resolve.antt =====
-- policy.rs: where entries point for a working directory, and the access of a path.
use rattler_sandbox.Prelude.{
  Bool, ◌&&◌, ◌||◌, Option, none, some, List, [], ◌∷◌, if◌then◌else◌, ltb, eqb, filter, filter_map,
  length, last, ◌>>=◌, map_option, unwrap_or,
}
use rattler_sandbox.World.{World}
use rattler_sandbox.Paths.Std.{
  PathBuf, normal, root_dir, is_absolute, starts_with, is_empty_path, ancestors,
}
use rattler_sandbox.Paths.Absolute.{
  AbsolutePathBuf, from_absolute_path, resolve_path_against_base, join,
}
use rattler_sandbox.Policy.Types.{
  FileSystemAccessMode, write, FileSystemSpecialPath, root, minimal, project_roots, tmpdir,
  slash_tmp, unknown, FileSystemPath, path, glob_pattern, special, FileSystemSandboxEntry,
  FileSystemSandboxPolicy, ResolvedFileSystemEntry,
}
use rattler_sandbox.Policy.Grants.{is_restricted, can_read, access_rank}

-- `/tmp`
abbrev pub slash_tmp_path : PathBuf
slash_tmp_path = root_dir ∷ normal "tmp" ∷ []

-- Whether the first entry has the lower key, for the pair of specificity and access.
unfoldable pub precedence_lt : ResolvedFileSystemEntry → ResolvedFileSystemEntry → Bool
precedence_lt a b =
    ltb (length a.path) (length b.path)
    || eqb (length a.path) (length b.path) && ltb (access_rank a.access) (access_rank b.access)

-- `max_by_key(resolved_entry_precedence)`: of several maxima the last.
unfoldable pub max_from :
    ResolvedFileSystemEntry → List ResolvedFileSystemEntry → ResolvedFileSystemEntry
max_from best [] = best
max_from best (entry ∷ entries) =
    max_from (if precedence_lt entry best then best else entry) entries

unfoldable pub max_by_precedence : List ResolvedFileSystemEntry → Option ResolvedFileSystemEntry
max_by_precedence [] = none
max_by_precedence (entry ∷ entries) = some (max_from entry entries)

module _ (w : World) where
  -- `none` is a panic: the directory has no root, or the root no absolute form.
  unfoldable pub absolute_root_path_for_cwd : AbsolutePathBuf → Option AbsolutePathBuf
  absolute_root_path_for_cwd cwd = last (ancestors cwd) >>= λ top. from_absolute_path w top

  unfoldable pub resolve_tmpdir : Option AbsolutePathBuf
  resolve_tmpdir = w.tmpdir >>= λ dir. if is_empty_path dir then none else from_absolute_path w dir

  unfoldable pub resolve_file_system_special_path :
      FileSystemSpecialPath → Option AbsolutePathBuf → Option AbsolutePathBuf
  resolve_file_system_special_path root cwd = none
  resolve_file_system_special_path minimal cwd = none
  resolve_file_system_special_path (unknown _ _) cwd = none
  resolve_file_system_special_path (project_roots none) cwd = cwd
  resolve_file_system_special_path (project_roots (some subpath)) cwd =
      map_option (λ dir. resolve_path_against_base subpath dir) cwd
  resolve_file_system_special_path tmpdir cwd = resolve_tmpdir
  resolve_file_system_special_path slash_tmp cwd =
      from_absolute_path w slash_tmp_path >>= λ dir. if w.is_dir dir then some dir else none

  unfoldable pub resolve_file_system_path :
      FileSystemPath → Option AbsolutePathBuf → Option AbsolutePathBuf
  resolve_file_system_path (path p) cwd = some p
  resolve_file_system_path (glob_pattern _) cwd = none
  resolve_file_system_path (special value) cwd = resolve_file_system_special_path value cwd

  unfoldable pub resolve_entry_path :
      FileSystemPath → Option AbsolutePathBuf → Option AbsolutePathBuf
  resolve_entry_path (special root) cwd = cwd >>= absolute_root_path_for_cwd
  resolve_entry_path p cwd = resolve_file_system_path p cwd

  unfoldable pub resolve_candidate_path : PathBuf → PathBuf → Option AbsolutePathBuf
  resolve_candidate_path target cwd =
      if is_absolute target
      then from_absolute_path w target
      else map_option (λ dir. join dir target) (from_absolute_path w cwd)

  abbrev pub resolve_entry :
      Option AbsolutePathBuf → FileSystemSandboxEntry → Option ResolvedFileSystemEntry
  resolve_entry cwd entry =
      map_option (λ p. record { path = p; access = entry.access })
        (resolve_entry_path entry.path cwd)

  unfoldable pub resolved_entries_with_cwd :
      FileSystemSandboxPolicy → PathBuf → List ResolvedFileSystemEntry
  resolved_entries_with_cwd policy cwd =
      filter_map (resolve_entry (from_absolute_path w cwd)) policy.entries

  -- The access that the resolved entries give to an absolute path.
  unfoldable pub access_among :
      List ResolvedFileSystemEntry → AbsolutePathBuf → FileSystemAccessMode
  access_among entries target =
      unwrap_or
        (map_option (λ entry. entry.access)
          (max_by_precedence (filter (λ entry. starts_with target entry.path) entries)))
        FileSystemAccessMode.none

  unfoldable pub resolve_access_with_cwd :
      FileSystemSandboxPolicy → PathBuf → PathBuf → FileSystemAccessMode
  resolve_access_with_cwd policy target cwd =
      if is_restricted policy.kind
      then unwrap_or
          (map_option (access_among (resolved_entries_with_cwd policy cwd))
            (resolve_candidate_path target cwd))
          FileSystemAccessMode.none
      else write

  unfoldable pub can_read_path_with_cwd : FileSystemSandboxPolicy → PathBuf → PathBuf → Bool
  can_read_path_with_cwd policy target cwd = can_read (resolve_access_with_cwd policy target cwd)
