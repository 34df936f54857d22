-- ===== src/LinkList.antt =====
-- kernel/list.c: a list whose nodes begin with their link. The state is the `next` field at each address.
pub mod Pushed
use os_team.Base.{
  ◌≡◌, ◌≢◌, refl, not, ◌==◌, if◌then◌else◌, List, [], ◌∷◌, arith, ok, Cmd, pure, get, put, assert,
  ◌>>=◌, ◌>>◌,
}
use os_team.Base.Chain.{Ptr, null, update}

-- `list_add`
unfoldable pub list_add : (list node : Ptr) → Cmd (Ptr → Ptr) (Unit {0})
list_add list node = do
  assert (not (list == null))
  assert (not (node == null))
  next ← get
  put (update (update next node (next list)) list node)

-- `list_remove`
unfoldable pub list_remove : (list : Ptr) → Cmd (Ptr → Ptr) Ptr
list_remove list = do
  assert (not (list == null))
  next ← get
  let node = next list
  if node == null
      then pure node
      else (do put (update (update next list (next node)) node null); pure node)
