-- ===== src/LinkList/Pushed.antt =====
-- The list of kernel/list.c as a stack of nodes.
use os_team.Base.{◌≡◌, ◌≢◌, refl, false, ◌==◌, List, ◌∷◌, arith, Returns, returns}
use os_team.Base.Chain.{Ptr, null, update, has, Chain}
use os_team.Base.Chain.Write.{Chain-update, Chain-push}
use os_team.LinkList.{list_add, list_remove}

-- The nodes behind the list's head, which is none of them.
pub record IsList (list : Ptr) (nodes : List Ptr) (next : Ptr → Ptr) : Type 0 where
  pub there : list ≢ null
  pub chain : Chain next (next list) nodes
  pub head : has list nodes ≡ false

-- A node that is not on the list is put in front of those that are.
pub list_add-IsList :
    (list node : Ptr) (nodes : List Ptr) (next : Ptr → Ptr)
    → IsList list nodes next
    → node ≢ null
    → (node == list) ≡ false
    → has node nodes ≡ false
    → Returns (λ _ next'. IsList list (node ∷ nodes) next') (list_add list node next)
unfolding list_add
list_add-IsList list node nodes next l real apart free =
    let here : (list == null) ≡ false = ground (arith, l.there) in
    let some_node : (node == null) ≡ false = ground (arith, real) in
    let linked = update next node (next list) in
    let pushed = Chain-push next node (next list) nodes real free l.chain in
    let off : has list (node ∷ nodes) ≡ false = ground (arith, apart, l.head) in
    let front : update linked list node list ≡ node = ground arith in
    rw (here, some_node)
      (returns (record {
        there = l.there;
        chain = rw front (Chain-update linked list node node (node ∷ nodes) off pushed);
        head = off;
      }))

-- The node in front is taken off the list and linked to nothing; an empty list has none.
pub list_remove-IsList :
    (list node : Ptr) (nodes : List Ptr) (next : Ptr → Ptr)
    → IsList list (node ∷ nodes) next
    → Returns
        (λ p next'. (p ≡ node) × IsList list nodes next' × (next' node ≡ null))
        (list_remove list next)
unfolding list_remove
list_remove-IsList list node nodes next l =
    let here : (list == null) ≡ false = ground (arith, l.there) in
    let (first, real, free, rest) = l.chain in
    let some_node : (next list == null) ≡ false = ground (arith, first, real) in
    let off : has list nodes ≡ false = ground (arith, l.head) in
    let cut = update next list (next node) in
    let behind : update cut node null list ≡ next node = ground arith in
    rw (here, some_node, first)
      (returns (
        refl,
        record {
          there = l.there;
          chain = rw behind (
              Chain-update cut node null (next node) nodes free
                (Chain-update next list (next node) (next node) nodes off rest));
          head = off;
        },
        ground arith,
      ))
