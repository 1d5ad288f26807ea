-- ===== src/Workspace/Answers.antt =====
-- src/qworker/workspace.py: what each answer of the classification says of the two workspaces.
use dogqoder.Prelude.{◌≡◌, ◌≢◌, true, false, Option, none, some, String, contains}
use dogqoder.Workspace.{FileSystem, WorkspaceRelation, same, ancestor, descendant}

-- `Path.parents` lists the proper ancestors: no two paths are parents of each other.
abbrev pub IsProper : FileSystem → Type 0
IsProper fs =
    (path parent : String)
    → contains (fs.parents path) parent ≡ true
    → contains (fs.parents parent) path ≡ false

-- What each answer says of two canonical workspaces.
abbrev pub Says : FileSystem → String → String → Option WorkspaceRelation → Type 0
Says fs requested live (some same) = requested ≡ live
Says fs requested live (some ancestor) = contains (fs.parents requested) live ≡ true
Says fs requested live (some descendant) = contains (fs.parents live) requested ≡ true
Says fs requested live none =
    (requested ≢ live)
    × (contains (fs.parents requested) live ≡ false)
    × (contains (fs.parents live) requested ≡ false)
