-- ===== src/Fabric/Checks.antt =====
-- Runs of engine/src/fabric/sqlish.rs, and its theorem at a concrete input.
use ontological_db.Base.{ℕ, ◌≡◌, refl, ◌⊎◌, true, false, ◌∷◌, ◌++◌, some}
use ontological_db.Text.Strings.{codes, contains_text}
use ontological_db.Fabric.{inner_tag, dollar_tag, dq}
use ontological_db.Fabric.Dollars.{read_to, ends_in, read_to-dq}

-- A text that ends with `$og` closes its quotes early.
dq_runs :
    (dq (codes "a $og$ b") ≡ some (codes "$og1$a $og$ b$og1$"))
    × (dq (codes "a$og") ≡ some (codes "$og$a$og$og$"))
    × (read_to (codes "$og$") (codes "a$og$og$;") ≡ some (codes "a", codes "og$;"))
unfolding dq read_to contains_text
dq_runs = (refl, refl, refl)

read_to-dq_example :
    (n : ℕ) × (dq (codes "a $og$ b") ≡ some (dollar_tag n ++ (codes "a $og$ b" ++ dollar_tag n)))
    × (contains_text (dollar_tag n) (codes "a $og$ b") ≡ false)
    × ((ends_in (36 ∷ inner_tag n) (codes "a $og$ b") ≡ true)
        ⊎ (read_to (dollar_tag n) (codes "a $og$ b" ++ (dollar_tag n ++ codes ";"))
            ≡ some (codes "a $og$ b", codes ";")))
read_to-dq_example = read_to-dq (codes "a $og$ b") (codes ";")
