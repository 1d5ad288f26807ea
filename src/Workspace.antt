-- ===== src/Workspace.antt =====
-- src/qworker/workspace.py: the classification of overlapping workspaces, over a file system that
-- resolves paths.
pub mod Answers
use dogqoder.Prelude.{Bool, Option, none, some, String, List, ◌==◌, contains, ◌>>=◌, if◌then◌else◌}

-- `Path.resolve(strict=True)`, with `none` for its error; `Path.is_dir`; `Path.parents`.
pub record FileSystem : Type 0 where
  pub resolve : String → Option String
  pub is_dir : String → Bool
  pub parents : String → List String

pub data WorkspaceRelation : Type 0 where
  same ancestor descendant : WorkspaceRelation

-- `canonical_workspace`; `none` is its `ValueError`.
unfoldable pub canonical_workspace : FileSystem → String → Option String
canonical_workspace fs cwd = do
  canonical ← fs.resolve cwd
  if fs.is_dir canonical then some canonical else none

-- The comparison of two canonical workspaces.
unfoldable pub relation : FileSystem → String → String → Option WorkspaceRelation
relation fs requested live =
    if requested == live
    then some WorkspaceRelation.same
    else if contains (fs.parents requested) live
    then some WorkspaceRelation.ancestor
    else if contains (fs.parents live) requested
    then some WorkspaceRelation.descendant
    else none

-- `classify_workspace_overlap`; the outer `none` is the `ValueError`.
unfoldable pub classify_workspace_overlap :
    FileSystem → String → String → Option (Option WorkspaceRelation)
unfolding canonical_workspace relation
classify_workspace_overlap fs requested_cwd live_cwd = do
  requested ← canonical_workspace fs requested_cwd
  live ← canonical_workspace fs live_cwd
  some (relation fs requested live)
