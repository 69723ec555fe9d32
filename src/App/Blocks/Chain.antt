-- ===== src/App/Blocks/Chain.antt =====
-- Many blocks in a row: the heights of app/app.go at which the begin blocker does more than hand on.
use gnodi.Base.{refl, sym, ap, ◌∙◌, arith, ℕ, zero, suc, ◌+◌, ◌≤◌, ◌<◌, ◌≡◌, ◌≢◌, ⊤}
use gnodi.Base.Action.{Action, Call, pure, try, ◌>>◌, bind_assoc, >>-cong}
use gnodi.App.Blocks.{
  Keepers, apply_hotfix, burn_or_panic, BlockError, pre_blocker, begin_blocker, end_blocker,
  min_gas_price_hotfix_height, security_burn_height, module_error,
}

module _ {E S : Type 0} where
  -- Block after block, each by its height.
  unfoldable pub blocks : (ℕ → Action E S ⊤) → ℕ → ℕ → Action E S ⊤
  blocks block height zero = pure tt
  blocks block height (suc n) = block height >> blocks block (suc height) n

  blocks-add :
      (f : ℕ → Action E S ⊤) (height next m n total : ℕ) (s : S)
      → height + m ≡ next
      → m + n ≡ total
      → blocks f height total s ≡ (blocks f height m >> blocks f next n) s
  unfolding blocks
  blocks-add f height next zero n total s e h =
      ap (λ x. blocks f height x s) {x = total} {y = n} (omega (arith, h))
      ∙ ap (λ x. blocks f x n s) {x = height} {y = next} (omega (arith, e))
  blocks-add f height next (suc m) n zero s e h = absurd (omega (arith, h))
  blocks-add f height next (suc m) n (suc total) s e h =
      >>-cong (f height) (f height) (blocks f (suc height) total)
        (blocks f (suc height) m >> blocks f next n) s refl
        (λ t. blocks-add f (suc height) next m n total t (omega (arith, e)) (omega (arith, h)))
      ∙ sym (bind_assoc (f height) (λ _. blocks f (suc height) m) (λ _. blocks f next n) s)

  blocks-same :
      (f g : ℕ → Action E S ⊤) (height n : ℕ)
      → ((i : ℕ) → height ≤ i → i < height + n → (s : S) → f i s ≡ g i s)
      → (s : S) → blocks f height n s ≡ blocks g height n s
  unfolding blocks
  blocks-same f g height zero h s = refl
  blocks-same f g height (suc n) h s =
      >>-cong (f height) (g height) (blocks f (suc height) n) (blocks g (suc height) n) s
        (h height (omega arith) (omega arith) s)
        (blocks-same f g (suc height) n (λ i a b. h i (omega arith) (omega arith)))

-- A block has the transactions of a height between its hooks.
module _ (k : Keepers) (txs : ℕ → Call k.State ⊤) where
  open k use {State, Events, begin_block}

  -- A block with a given begin blocker.
  abbrev pub block_of : Action BlockError State Events → ℕ → Action BlockError State ⊤
  block_of begin height = do
    pre_blocker k
    begin
    try (txs height) module_error
    end_blocker k
    pure tt

  unfoldable pub block : ℕ → Action BlockError State ⊤
  block height = block_of (begin_blocker k height) height

  -- A block in which a step comes before the begin blocker of the modules.
  unfoldable pub block_with : Action BlockError State ⊤ → ℕ → Action BlockError State ⊤
  block_with step height = block_of (step >> try begin_block module_error) height

  begin_plain :
      (height : ℕ) (s : State)
      → height ≢ min_gas_price_hotfix_height
      → height ≢ security_burn_height
      → begin_blocker k height s ≡ (pure tt >> try begin_block module_error) s
  unfolding begin_blocker
  begin_plain height s n m = ground arith

  begin_hotfix :
      (s : State)
      → begin_blocker k min_gas_price_hotfix_height s
        ≡ (apply_hotfix k >> try begin_block module_error) s
  unfolding begin_blocker
  begin_hotfix s = refl

  begin_burn :
      (s : State)
      → begin_blocker k security_burn_height s ≡ (burn_or_panic k >> try begin_block module_error) s
  unfolding begin_blocker
  begin_burn s = refl

  block-block_with :
      (height : ℕ) (step : Action BlockError State ⊤) (s : State)
      → ((t : State) → begin_blocker k height t ≡ (step >> try begin_block module_error) t)
      → block height s ≡ block_with step height s
  unfolding block block_with
  block-block_with height step s e =
      let after : Action BlockError State ⊤ =
        try (txs height) module_error >> (end_blocker k >> pure tt) in
      let hooked = step >> try begin_block module_error in
      >>-cong (pre_blocker k) (pre_blocker k) (begin_blocker k height >> after) (hooked >> after) s
        refl (λ t. >>-cong (begin_blocker k height) hooked after after t (e t) (λ _. refl))

  plain_run :
      (height n : ℕ) (s : State)
      → ((i : ℕ)
          → height ≤ i
          → i < height + n
          → (i ≢ min_gas_price_hotfix_height) × (i ≢ security_burn_height))
      → blocks block height n s ≡ blocks (block_with (pure tt)) height n s
  plain_run height n s h =
      blocks-same block (block_with (pure tt)) height n
        (λ i a b t. block-block_with i (pure tt) t (λ u. begin_plain i u (h i a b).0 (h i a b).1)) s

  -- What comes from the block of the burn on.
  from_burn :
      (c : ℕ) (s : State)
      → blocks block security_burn_height (suc c) s
        ≡ (block_with (burn_or_panic k) security_burn_height
              >> blocks (block_with (pure tt)) (suc security_burn_height) c)
            s
  unfolding blocks
  from_burn c s =
      >>-cong (block security_burn_height) (block_with (burn_or_panic k) security_burn_height)
        (blocks block (suc security_burn_height) c)
        (blocks (block_with (pure tt)) (suc security_burn_height) c) s
        (block-block_with security_burn_height (burn_or_panic k) s begin_burn)
        (λ t.
          plain_run (suc security_burn_height) c t
            (λ i x y. (λ q. omega (arith, q, x), λ q. omega (arith, q, x))))

  -- For blocks in a row, from a height not above that of the hotfix to one above that of the burn:
  -- they are the blocks of the modules alone, but that in the block of the hotfix the hotfix, and
  -- in the block of the burn the burn, comes right before the modules' begin blocker. Each happens
  -- in one block only, whatever the transactions are, and an error of either stops the run as it
  -- does there.
  pub hooks_act_once :
      (height a b c : ℕ) (s : State)
      → height + a ≡ min_gas_price_hotfix_height
      → suc min_gas_price_hotfix_height + b ≡ security_burn_height
      → blocks block height (a + suc (b + suc c)) s
        ≡ (blocks (block_with (pure tt)) height a
              >> (block_with (apply_hotfix k) min_gas_price_hotfix_height
                  >> (blocks (block_with (pure tt)) (suc min_gas_price_hotfix_height) b
                      >> (block_with (burn_or_panic k) security_burn_height
                          >> blocks (block_with (pure tt)) (suc security_burn_height) c))))
            s
  unfolding blocks
  hooks_act_once height a b c s e f =
      blocks-add block height min_gas_price_hotfix_height a (suc (b + suc c)) (a + suc (b + suc c))
        s e refl
      ∙ >>-cong (blocks block height a) (blocks (block_with (pure tt)) height a)
          (block min_gas_price_hotfix_height
            >> blocks block (suc min_gas_price_hotfix_height) (b + suc c))
          (block_with (apply_hotfix k) min_gas_price_hotfix_height
            >> (blocks (block_with (pure tt)) (suc min_gas_price_hotfix_height) b
                >> (block_with (burn_or_panic k) security_burn_height
                    >> blocks (block_with (pure tt)) (suc security_burn_height) c)))
          s
          (plain_run height a s
            (λ i x y. (λ q. omega (arith, q, y, e), λ q. omega (arith, q, y, e))))
          (λ t.
            >>-cong (block min_gas_price_hotfix_height)
              (block_with (apply_hotfix k) min_gas_price_hotfix_height)
              (blocks block (suc min_gas_price_hotfix_height) (b + suc c))
              (blocks (block_with (pure tt)) (suc min_gas_price_hotfix_height) b
                >> (block_with (burn_or_panic k) security_burn_height
                    >> blocks (block_with (pure tt)) (suc security_burn_height) c))
              t (block-block_with min_gas_price_hotfix_height (apply_hotfix k) t begin_hotfix)
              between)
    where
      between :
          (t : State)
          → blocks block (suc min_gas_price_hotfix_height) (b + suc c) t
            ≡ (blocks (block_with (pure tt)) (suc min_gas_price_hotfix_height) b
                  >> (block_with (burn_or_panic k) security_burn_height
                      >> blocks (block_with (pure tt)) (suc security_burn_height) c))
                t
      between t =
          blocks-add block (suc min_gas_price_hotfix_height) security_burn_height b (suc c)
            (b + suc c) t f refl
          ∙ >>-cong (blocks block (suc min_gas_price_hotfix_height) b)
              (blocks (block_with (pure tt)) (suc min_gas_price_hotfix_height) b)
              (blocks block security_burn_height (suc c))
              (block_with (burn_or_panic k) security_burn_height
                >> blocks (block_with (pure tt)) (suc security_burn_height) c)
              t
              (plain_run (suc min_gas_price_hotfix_height) b t
                (λ i x y. (λ q. omega (arith, q, x), λ q. omega (arith, q, y, f))))
              (from_burn c)
