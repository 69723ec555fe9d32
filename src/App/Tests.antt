-- ===== src/App/Tests.antt =====
-- The theorems about the decorator of app/ante.go at concrete transactions.
mod Ante
mod Genesis
mod Mempool
mod GenesisAccount
mod Keepers
mod Upgrade
mod Accounts
mod Blocks
mod Hooks
mod Export
use gnodi.Base.{◌≡◌, ◌≢◌, List, [], ◌∷◌, All, arith}
use gnodi.Base.Text.{Bytes, bytes}
use gnodi.Base.Result.{ok, err}
use gnodi.App.Ante.{
  Msg, exec, submit_proposal, other, inner, no_more, more, ante_handle, CheckError, unauthorized,
}
use gnodi.App.Ante.Nested.{
  visits_tx, visits, visits_payload, visits_inner, Admissible, ante_handle_passes,
  ante_handle_refuses,
}

abbrev disabled : List Bytes
disabled = bytes "/evm" ∷ []

-- An EVM message at the top, and a proposal with a transfer.
abbrev honest : List Msg
honest = other (bytes "/evm") ∷ submit_proposal (inner (more (other (bytes "/send")) no_more)) ∷ []

-- An EVM message in an execution in a proposal.
abbrev hidden : List Msg
hidden =
    submit_proposal (inner (more (exec (inner (more (other (bytes "/evm")) no_more))) no_more)) ∷ []

different : ◌≢◌ {A = Bytes} (bytes "/send") (bytes "/evm")
different h = cc

honest-Admissible : All (Admissible disabled) (visits_tx honest)
unfolding visits_tx visits visits_payload visits_inner
honest-Admissible = ground (arith, different)

hidden-not_Admissible : ¬ All (Admissible disabled) (visits_tx hidden)
unfolding visits_tx visits visits_payload visits_inner
hidden-not_Admissible h = ground arith

ante_handle_refuses_example :
    (e : CheckError) × (ante_handle disabled hidden (λ s. ok s) (bytes "context")
      ≡ err (unauthorized e))
ante_handle_refuses_example =
    ante_handle_refuses disabled hidden (λ s. ok s) (bytes "context") hidden-not_Admissible
