-- ===== src/Gnodid/MultiNode/Node/Filled.antt =====
-- What the loop over the nodes has collected when it ends well.
use gnodi.Base.{
  ap, refl, sym, subst, subst₂, ◌∙◌, arith, ℕ, zero, suc, ◌+◌, ◌≡◌, false, List, [], ◌∷◌, ◌++◌, All,
  length, length-append,
}
use gnodi.Base.Text.{Bytes, bytes_equal}
use gnodi.Base.Result.{Result, ok}
use gnodi.Base.Action.{bind-ok, pure}
use gnodi.Gnodid.Strings.{join_pieces, join_after}
use gnodi.Gnodid.MultiNode.Env.{Env, InitError}
use gnodi.Gnodid.MultiNode.Node.{
  Args, Vars, memo_of, add_peer, gentx_file, Made, append_node, write_node, init_node, init_nodes,
  configure, serve,
}

append_assoc : {A : Type 0} (a b c : List A) → (a ++ b) ++ c ≡ a ++ (b ++ c)
append_assoc [] b c = refl
append_assoc (x ∷ a) b c = ap (λ l. x ∷ l) (append_assoc a b c)

join_after-append :
    (p : Bytes) (l : List Bytes) (memo : Bytes)
    → join_after p (l ++ memo ∷ []) ≡ join_after p l ++ b',' ∷ memo
join_after-append p [] memo = refl
join_after-append p (q ∷ l) memo =
    ap (λ t. p ++ b',' ∷ t) (join_after-append q l memo)
    ∙ sym (append_assoc p (b',' ∷ join_after q l) (b',' ∷ memo))

-- A text that is not empty.
abbrev pub NonEmpty : Bytes → Type 0
NonEmpty t = bytes_equal t [] ≡ false

append-NonEmpty : (a b : Bytes) → NonEmpty a → NonEmpty (a ++ b)
unfolding bytes_equal
append-NonEmpty [] b h = cc
append-NonEmpty (x ∷ a) b h = refl

join_after-NonEmpty : (p : Bytes) (l : List Bytes) → NonEmpty p → NonEmpty (join_after p l)
join_after-NonEmpty p [] h = h
join_after-NonEmpty p (q ∷ l) h = append-NonEmpty p (b',' ∷ join_after q l) h

-- The test for the first peer finds the first peer.
pub join_pieces-append :
    (k : Env) (l : List Bytes) (memo : Bytes)
    → All NonEmpty l
    → add_peer k (join_pieces l) memo ≡ join_pieces (l ++ memo ∷ [])
unfolding add_peer join_pieces bytes_equal
join_pieces-append k [] memo h = refl
join_pieces-append k (p ∷ l) memo h =
    ground (arith, join_after-NonEmpty p l h.0, join_after-append p l memo)

length-add : {A : Type 0} (l : List A) (a : A) {n : ℕ} → length l ≡ n → length (l ++ a ∷ []) ≡ suc n
length-add l a h = omega (arith, h, length-append l (a ∷ []))

module _ (k : Env) where
  open k use {State}

  -- A text for each node, from index `i` on.
  abbrev pub each_node : (ℕ → Bytes → Bytes) → ℕ → List Bytes → List Bytes
  each_node f i [] = []
  each_node f i (node_id ∷ l) = f i node_id ∷ each_node f (suc i) l

  each_node-append :
      (f : ℕ → Bytes → Bytes) (i n : ℕ) (l : List Bytes) (node_id : Bytes)
      → i + length l ≡ n
      → each_node f i (l ++ node_id ∷ []) ≡ each_node f i l ++ f n node_id ∷ []
  each_node-append f i n [] node_id h = ap (λ j. f j node_id ∷ []) (omega (arith, h))
  each_node-append f i n (x ∷ l) node_id h =
      ap (λ t. f i x ∷ t) (each_node-append f (suc i) n l node_id (omega (arith, h)))

  abbrev pub memos : Args k → List Bytes → List Bytes
  memos args = each_node (memo_of k args) 0

  memo_of-NonEmpty : (args : Args k) (i : ℕ) (node_id : Bytes) → NonEmpty (memo_of k args i node_id)
  unfolding memo_of bytes_equal
  memo_of-NonEmpty args i [] = refl
  memo_of-NonEmpty args i (c ∷ l) = refl

  memos-NonEmpty :
      (args : Args k) (i : ℕ) (l : List Bytes) → All NonEmpty (each_node (memo_of k args) i l)
  memos-NonEmpty args i [] = tt
  memos-NonEmpty args i (node_id ∷ l) =
      (memo_of-NonEmpty args i node_id, memos-NonEmpty args (suc i) l)

  -- The arrays have one entry for each of the `n` nodes, the peers are the nodes' addresses with commas
  -- between them, the transactions are those of the nodes, and the gas price is the given one.
  pub record IsFilled (args : Args k) (price : Bytes) (n : ℕ) (vars : Vars k) : Type 0 where
    pub ids : length vars.node_ids ≡ n
    pub keys : length vars.val_pub_keys ≡ n
    pub accounts : length vars.gen_accounts ≡ n
    pub balances : length vars.gen_balances ≡ n
    pub files : length vars.gen_files ≡ n
    pub peers : vars.persistent_peers ≡ join_pieces (memos args vars.node_ids)
    pub gentxs : vars.gentxs_files ≡ each_node (gentx_file k args) 0 vars.node_ids
    pub priced : vars.app_config.min_gas_prices ≡ price

  append_node-IsFilled :
      (args : Args k) (price : Bytes) (i : ℕ) (vars : Vars k) (made : Made k)
      → IsFilled args price i vars
      → IsFilled args price (suc i) (append_node k args i vars made)
  unfolding append_node serve
  append_node-IsFilled args price i vars made x = record {
    ids = length-add vars.node_ids made.node_id x.ids;
    keys = length-add vars.val_pub_keys made.key x.keys;
    accounts = length-add vars.gen_accounts (k.new_base_account made.addr) x.accounts;
    balances = length-add vars.gen_balances made.balance x.balances;
    files =
        length-add vars.gen_files (k.genesis_file (configure k args i vars.node_config)) x.files;
    peers =
        ap (λ t. add_peer k t (memo_of k args i made.node_id)) x.peers
        ∙ join_pieces-append k (memos args vars.node_ids) _ (memos-NonEmpty args 0 vars.node_ids)
        ∙ ap join_pieces (
            sym (
              each_node-append (memo_of k args) 0 i vars.node_ids made.node_id
                (omega (arith, x.ids))));
    gentxs =
        ap (λ l. l ++ gentx_file k args i made.node_id ∷ []) x.gentxs
        ∙ sym (
            each_node-append (gentx_file k args) 0 i vars.node_ids made.node_id
              (omega (arith, x.ids)));
    priced = x.priced;
  }

  is_last :
      {v w : Vars k} {s s' : State}
      → ◌≡◌ {A = Result InitError (Vars k) × State} (ok v, s) (ok w, s')
      → v ≡ w
  is_last h = cc

  -- If the loop ends well, then after `n` rounds from index `i` on the variables are filled for `i + n` nodes,
  -- where they were filled for `i` nodes.
  pub init_nodes-IsFilled :
      (args : Args k) (price : Bytes) (n i : ℕ) (vars last : Vars k) (s s' : State)
      → IsFilled args price i vars
      → init_nodes k args n i vars s ≡ (ok last, s')
      → IsFilled args price (i + n) last
  unfolding init_nodes init_node
  init_nodes-IsFilled args price zero i vars last s s' x h =
      subst₂ (IsFilled args price) (omega arith) (is_last h) x
  init_nodes-IsFilled args price (suc n) i vars last s s' x h =
      let config = configure k args i vars.node_config in
      let app = serve k args i vars.app_config in
      let (next, s1, e, h1) = bind-ok (init_node k args i vars) (init_nodes k args n (suc i)) s h in
      let (made, _, _, h2) =
        bind-ok (write_node k args i config app) (λ m. pure (append_node k args i vars m)) s e in
      let filled =
        subst (IsFilled args price (suc i)) (is_last h2)
          (append_node-IsFilled args price i vars made x) in
      subst (λ m. IsFilled args price m last) (omega arith)
        (init_nodes-IsFilled args price n (suc i) next last s1 s' filled h1)
