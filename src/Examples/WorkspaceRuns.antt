-- ===== src/Examples/WorkspaceRuns.antt =====
-- A run of src/qworker/workspace.py: a worker in a directory below the live one, reached by a link.
use dogqoder.Prelude.{◌≡◌, refl, some, [], ◌∷◌, ◌==◌, contains, if◌then◌else◌}
use dogqoder.Workspace.{FileSystem, ancestor, classify_workspace_overlap}

abbrev disk : FileSystem
disk = record {
  resolve = λ path. if path == "/link" then some "/work/app" else some path;
  is_dir = λ path. contains ("/work" ∷ "/work/app" ∷ []) path;
  parents = λ path. if path == "/work/app" then "/work" ∷ [] else [];
}

sees_the_live : classify_workspace_overlap disk "/link" "/work" ≡ some (some ancestor)
unfolding classify_workspace_overlap
sees_the_live = refl
