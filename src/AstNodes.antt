-- ===== src/AstNodes.antt =====
-- src/ASTNodes.hpp: the classes of nodes as one data type, with the vectors and the pointers that
-- may be null beside it. A node stands for the object that the arena holds.
use partio.Prelude.{ℕ, ◌≡◌, refl, ap}

mutual
  pub data AstNode : Type 0 where
    block_node : Nodes → AstNode
    function_decl_node : ℕ → ℕ → Body → AstNode
    var_decl_node : ℕ → ℕ → Pointer → AstNode
    number_node : ℕ → AstNode
    return_node : Pointer → AstNode
    translation_unit_node : Nodes → AstNode

  -- `std::pmr::vector<ASTNode*>`
  pub data Nodes : Type 0 where
    nil : Nodes
    cons : AstNode → Nodes → Nodes

  -- `ASTNode*`
  pub data Pointer : Type 0 where
    null : Pointer
    to : AstNode → Pointer

  -- `BlockNode*`, by the statements of the block
  pub data Body : Type 0 where
    no_body : Body
    body : Nodes → Body

abbrev pub append : Nodes → Nodes → Nodes
append nil ms = ms
append (cons n ns) ms = cons n (append ns ms)

-- `push_back`
abbrev pub push_back : Nodes → AstNode → Nodes
push_back ns n = append ns (cons n nil)

pub append-push_back :
    (ns : Nodes) (n : AstNode) (ms : Nodes) → append (push_back ns n) ms ≡ append ns (cons n ms)
append-push_back nil n ms = refl
append-push_back (cons k ns) n ms = ap (cons k) (append-push_back ns n ms)

pub append-nil : (ns : Nodes) → append ns nil ≡ ns
append-nil nil = refl
append-nil (cons n ns) = ap (cons n) (append-nil ns)
