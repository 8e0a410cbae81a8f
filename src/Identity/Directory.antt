-- ===== src/Identity/Directory.antt =====
-- The directory of identity/directory.go: the rows of each principal.
use seshatops.Base.{List, [], ◌∷◌, ◌++◌, Bytes, str_eq, if◌then◌else◌}
use seshatops.Event.Text.{is_empty}

pub record Assignment : Type 0 where
  pub principal_id : Bytes
  pub tenant_id : Bytes
  pub role_id : Bytes

-- `map[string][]Assignment`: a missing key gives no rows.
abbrev pub Directory : Type 0
Directory = Bytes → List Assignment

abbrev pub no_assignments : Directory
no_assignments _ = []

-- `addLocked`
unfoldable pub assign : Assignment → Directory → Directory
assign a d p =
    if is_empty a.principal_id then d p else if str_eq p a.principal_id then d p ++ a ∷ [] else d p

unfoldable pub clear : Bytes → Directory → Directory
clear principal d p = if is_empty principal then d p else if str_eq p principal then [] else d p

unfoldable pub assignments : Directory → Bytes → List Assignment
assignments d p = if is_empty p then [] else d p

-- The calls that change a directory, in order.
pub data Change : Type 0 where
  assigned : Assignment → Change
  cleared : Bytes → Change

unfoldable pub directory_after : List Change → Directory
directory_after [] = no_assignments
directory_after (assigned a ∷ before) = assign a (directory_after before)
directory_after (cleared p ∷ before) = clear p (directory_after before)
