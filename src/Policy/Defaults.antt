-- ===== src/Policy/Defaults.antt =====
-- policy.rs: the read-only paths that a writable root has by default, and how such entries join a
-- policy.
use rattler_sandbox.Prelude.{
  String, Bool, false, ◌&&◌, ◌||◌, Option, none, some, List, [], ◌∷◌, ◌++◌, if◌then◌else◌, ◌==◌,
  string_eq, any, ◌>>=◌, trim, split_once, is_empty_text, is_some_and,
}
use mathlib.Core.List.{foldl}
use rattler_sandbox.World.{World}
use rattler_sandbox.Paths.Std.{PathBuf, normal, components, parent, file_name}
use rattler_sandbox.Paths.Absolute.{AbsolutePathBuf, join, resolve_path_against_base}
use rattler_sandbox.Policy.Types.{
  read, project_roots, FileSystemPath, path, special, FileSystemSandboxEntry,
}
use rattler_sandbox.Policy.Grants.{file_system_paths_share_target}
use rattler_sandbox.Policy.Dedup.{dedup_absolute_paths}

unfoldable pub append_default_read_only_entry_if_no_explicit_rule :
    List FileSystemSandboxEntry → FileSystemPath → List FileSystemSandboxEntry
append_default_read_only_entry_if_no_explicit_rule entries p =
    if any (λ entry. file_system_paths_share_target entry.path p) entries
    then entries
    else entries ++ record { path = p; access = read } ∷ []

unfoldable pub append_default_read_only_path_if_no_explicit_rule :
    List FileSystemSandboxEntry → AbsolutePathBuf → List FileSystemSandboxEntry
append_default_read_only_path_if_no_explicit_rule entries p =
    append_default_read_only_entry_if_no_explicit_rule entries (path p)

unfoldable pub append_default_read_only_project_root_subpath_if_no_explicit_rule :
    List FileSystemSandboxEntry → PathBuf → List FileSystemSandboxEntry
append_default_read_only_project_root_subpath_if_no_explicit_rule entries subpath =
    append_default_read_only_entry_if_no_explicit_rule entries
      (special (project_roots (some subpath)))

-- What follows `gitdir:` in the pointer file, if it is of that form and not empty.
unfoldable pub gitdir_of_contents : String → Option String
gitdir_of_contents contents = split_once b':' (trim contents) >>= λ (prefix, raw).
    if trim prefix == "gitdir"
    then (if is_empty_text (trim raw) then none else some (trim raw))
    else none

module _ (w : World) where
  unfoldable pub is_git_pointer_file : AbsolutePathBuf → Bool
  is_git_pointer_file p = w.is_file p && is_some_and (λ name. name == ".git") (file_name p)

  unfoldable pub resolve_gitdir_from_file : AbsolutePathBuf → Option AbsolutePathBuf
  resolve_gitdir_from_file dot_git = w.read_to_string dot_git >>= λ contents.
      gitdir_of_contents contents >>= λ gitdir_raw. parent dot_git >>= λ base.
      let gitdir_path = resolve_path_against_base (components gitdir_raw) base in
      if w.exists gitdir_path then some gitdir_path else none

  -- The directory that a pointer file names, if it can be resolved.
  unfoldable pub gitdir_subpaths : AbsolutePathBuf → List AbsolutePathBuf
  gitdir_subpaths top_level_git =
      if w.is_file top_level_git && is_git_pointer_file top_level_git
      then elim (resolve_gitdir_from_file top_level_git) [ none ↦ [] | some gitdir ↦ gitdir ∷ [] ]
      else []

  unfoldable pub default_read_only_subpaths_for_writable_root :
      AbsolutePathBuf → Bool → List AbsolutePathBuf
  default_read_only_subpaths_for_writable_root writable_root protect_missing_dot_codex =
      let top_level_git = join writable_root (normal ".git" ∷ []) in
      let top_level_agents = join writable_root (normal ".agents" ∷ []) in
      let top_level_codex = join writable_root (normal ".codex" ∷ []) in
      dedup_absolute_paths w
        ((if w.is_dir top_level_git || w.is_file top_level_git
            then gitdir_subpaths top_level_git ++ top_level_git ∷ []
            else [])
          ++ ((if w.is_dir top_level_agents then top_level_agents ∷ [] else [])
              ++ (if protect_missing_dot_codex || w.is_dir top_level_codex
                  then top_level_codex ∷ []
                  else [])))
        false

  -- The loop over the default subpaths of one writable root.
  unfoldable pub append_default_subpaths :
      Bool → List FileSystemSandboxEntry → AbsolutePathBuf → List FileSystemSandboxEntry
  append_default_subpaths protect_missing_dot_codex entries writable_root =
      foldl append_default_read_only_path_if_no_explicit_rule entries
        (default_read_only_subpaths_for_writable_root writable_root protect_missing_dot_codex)
