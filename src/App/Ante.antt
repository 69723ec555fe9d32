-- ===== src/App/Ante.antt =====
-- app/ante.go: the decorator that looks into group proposals and authz executions for disabled messages.
pub mod Handler
pub mod Nested
use gnodi.Base.{
  ℕ, suc, Bool, true, false, ◌&&◌, ◌||◌, leb, Option, none, some, List, [], ◌∷◌, ⊤, if◌then◌else◌,
}
use gnodi.Base.Text.{Bytes, bytes_equal}
use gnodi.Base.Result.{Result, ok, err, ◌>>=◌, ◌>>◌, fail_if}

-- A message as `checkMsg` sees it. `GetMessages`, `GetMsgs` and `GetAuthorization` are outside the
-- repository: the message holds what they return, an error too, and the type URLs.
mutual
  pub data Msg : Type 0 where
    exec : Payload → Msg
    grant : Option Bytes → Msg
    submit_proposal : Payload → Msg
    other : Bytes → Msg

  pub data Payload : Type 0 where
    undecodable : Payload
    inner : Msgs → Payload

  pub data Msgs : Type 0 where
    no_more : Msgs
    more : Msg → Msgs → Msgs

pub data CheckError : Type 0 where
  too_deep unreadable : CheckError
  disabled_grant disabled_msg : Bytes → CheckError

-- `ErrUnauthorized` around an error of the check, or an error of a later handler.
pub data AnteError : Type 0 where
  unauthorized : CheckError → AnteError
  later : Bytes → AnteError

abbrev pub max_group_nested_msgs : ℕ
max_group_nested_msgs = 7

unfoldable pub is_disabled : List Bytes → Bytes → Bool
is_disabled [] type_url = false
is_disabled (disabled ∷ rest) type_url = bytes_equal type_url disabled || is_disabled rest type_url

unfoldable pub check_grant : List Bytes → Option Bytes → Result CheckError ⊤
check_grant ds none = err unreadable
check_grant ds (some type_url) = fail_if (is_disabled ds type_url) (disabled_grant type_url)

unfoldable mutual
  pub check_msg : List Bytes → Msg → Bool → ℕ → Result CheckError ⊤
  check_msg ds (exec p) inside depth =
      if leb max_group_nested_msgs depth then err too_deep else check_payload ds p (suc depth)
  check_msg ds (grant authorization) inside depth =
      if leb max_group_nested_msgs depth then err too_deep else check_grant ds authorization
  check_msg ds (submit_proposal p) inside depth =
      if leb max_group_nested_msgs depth then err too_deep else check_payload ds p (suc depth)
  check_msg ds (other type_url) inside depth =
      if leb max_group_nested_msgs depth
      then err too_deep
      else fail_if (inside && is_disabled ds type_url) (disabled_msg type_url)

  pub check_payload : List Bytes → Payload → ℕ → Result CheckError ⊤
  check_payload ds undecodable depth = err unreadable
  check_payload ds (inner ms) depth = check_msgs ds ms depth

  -- The loops over inner messages.
  pub check_msgs : List Bytes → Msgs → ℕ → Result CheckError ⊤
  check_msgs ds no_more depth = ok tt
  check_msgs ds (more m ms) depth = check_msg ds m true depth >> check_msgs ds ms depth

-- The loop of `AnteHandle` over the messages of a transaction, which are inside nothing, at depth 1.
unfoldable pub check_tx : List Bytes → List Msg → Result CheckError ⊤
check_tx ds [] = ok tt
check_tx ds (m ∷ ms) = check_msg ds m false 1 >> check_tx ds ms

abbrev wrapped : Result CheckError ⊤ → Result AnteError ⊤
wrapped (ok _) = ok tt
wrapped (err e) = err (unauthorized e)

-- `AnteHandle`, with the context as a state and the chain that follows as `next`.
unfoldable pub ante_handle {ℓ} :
    {C : Type ℓ} → List Bytes → List Msg → (C → Result AnteError C) → C → Result AnteError C
ante_handle ds ms next ctx = wrapped (check_tx ds ms) >>= λ _. next ctx
