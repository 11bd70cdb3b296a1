-- ===== src/Cypher/Ast.antt =====
-- The expressions of engine/src/cypher/ast.rs. A floating-point number is a 64-bit pattern. A list of
-- expressions, of named expressions, of the branches of CASE and of the items of a map projection is a
-- data type of its own, as an expression holds them.
use ontological_db.Base.{ℕ, Bool, List}
use ontological_db.Base.Int.{ℤ}

pub data Lit : Type 0 where
  int : ℤ → Lit
  float : ℕ → Lit
  str : List ℕ → Lit
  truth : Bool → Lit
  null_lit : Lit

pub data BinOp : Type 0 where
  add sub mul div mod_op pow eq ne lt le gt ge and or xor in_op starts_with ends_with contains regex
        concat :
      BinOp

pub data ListPredKind : Type 0 where
  any all_of none_of single : ListPredKind

mutual
  pub data Expr : Type 0 where
    lit : Lit → Expr
    param : List ℕ → Expr
    var : List ℕ → Expr
    prop : Expr → List ℕ → Expr
    binary : BinOp → Expr → Expr → Expr
    not_expr : Expr → Expr
    neg : Expr → Expr
    is_null : Expr → Bool → Expr
    func : List ℕ → Exprs → Bool → Expr
    list : Exprs → Expr
    map_expr : NamedExprs → Expr
    case_expr : MaybeExpr → Whens → MaybeExpr → Expr
    list_comp : List ℕ → Expr → MaybeExpr → MaybeExpr → Expr
    list_pred : ListPredKind → List ℕ → Expr → Expr → Expr
    map_projection : List ℕ → MapProjItems → Expr
    star : Expr

  pub data Exprs : Type 0 where
    no_exprs : Exprs
    expr : Expr → Exprs → Exprs

  pub data NamedExprs : Type 0 where
    no_entries : NamedExprs
    entry : List ℕ → Expr → NamedExprs → NamedExprs

  pub data Whens : Type 0 where
    no_whens : Whens
    when : Expr → Expr → Whens → Whens

  pub data MaybeExpr : Type 0 where
    absent : MaybeExpr
    present : Expr → MaybeExpr

  pub data MapProjItems : Type 0 where
    no_items : MapProjItems
    prop_item : List ℕ → MapProjItems → MapProjItems
    all_item : MapProjItems → MapProjItems
    entry_item : List ℕ → Expr → MapProjItems → MapProjItems
