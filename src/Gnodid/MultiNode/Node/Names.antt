-- ===== src/Gnodid/MultiNode/Node/Names.antt =====
-- The directories of the nodes of a testnet.
use gnodi.Base.{ℕ, ◌≡◌, [], ◌∷◌, ◌++◌}
use gnodi.Base.Text.{Bytes}
use gnodi.Gnodid.Strings.Decimal.{itoa_injective}
use gnodi.Gnodid.Strings.{itoa}
use gnodi.Base.Int.{pos}
use gnodi.Gnodid.MultiNode.Env.{Env}
use gnodi.Gnodid.MultiNode.Node.{Args, node_dir_name}

append_cancel : (p a b : Bytes) → p ++ a ≡ p ++ b → a ≡ b
append_cancel [] a b h = h
append_cancel (c ∷ p) a b h = append_cancel p a b (tail_same h)
  where
    tail_same : {x y : Bytes} → ◌≡◌ {A = Bytes} (c ∷ x) (c ∷ y) → x ≡ y
    tail_same h = cc

-- Two nodes of a testnet with one directory name are the same node, for every prefix: decimal
-- texts differ where the numbers do.
pub node_dir_name_apart :
    (k : Env) (args : Args k) (i j : ℕ) → node_dir_name k args i ≡ node_dir_name k args j → i ≡ j
unfolding node_dir_name
node_dir_name_apart k args i j h =
    itoa_injective i j (append_cancel args.node_dir_prefix (itoa (pos i)) (itoa (pos j)) h)
