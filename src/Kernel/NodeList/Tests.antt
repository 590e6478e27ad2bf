-- ===== src/Kernel/NodeList/Tests.antt =====
-- Runs of blt/kernel/list.c, and its theorems at a list of two nodes.
use os_open_blt.Base.{◌≡◌, refl, true, false, [], ◌∷◌, arith, update}
use os_open_blt.Kernel.NodeList.{
  Heap, list_init, list_add_head, list_add_tail, list_remove_head, list_remove,
}
use os_open_blt.Kernel.NodeList.Links.{IsList}
use os_open_blt.Kernel.NodeList.Walk.{Walked, list_remove-Walked}

-- The list at address 100 with the nodes 1 and 2, which hold 7 and 8.
abbrev two_nodes : Heap
two_nodes = record {
  next = λ a. update (update (update (λ _. 0) 100 1) 1 2) 2 100 a;
  prev = λ a. update (update (update (λ _. 0) 100 2) 1 100) 2 1 a;
  content = λ a. update (update (λ _. 0) 1 7) 2 8 a;
  count = λ a. update (λ _. 0) 100 2 a;
  allocated = λ a. update (update (λ _. false) 1 true) 2 true a;
}

two_nodes-IsList : IsList two_nodes 100 (1 ∷ 2 ∷ [])
unfolding update
two_nodes-IsList = record {
  links = (refl, refl, (refl, refl, (refl, refl)));
  apart = refl;
  distinct = (refl, (refl, tt));
  counted = refl;
}

built :
    (list_remove_head 100
      (list_add_tail 100 2 8 (list_add_head 100 1 7 (list_init 100 two_nodes)))).0
    ≡ 7
unfolding list_remove_head list_add_tail list_add_head list_init
built = refl

list_remove-Walked_example : Walked two_nodes 100 8 [] (1 ∷ 2 ∷ []) (list_remove 100 8 two_nodes)
list_remove-Walked_example =
    list_remove-Walked two_nodes 100 8 (1 ∷ 2 ∷ []) two_nodes-IsList (omega arith)
