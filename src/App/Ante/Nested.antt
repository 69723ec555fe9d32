-- ===== src/App/Ante/Nested.antt =====
-- Which transactions the decorator passes on, told by listing the messages it reaches.
use gnodi.Base.{
  ◌≡◌, ◌≢◌, ◌<◌, ◌↔◌, refl, arith, ℕ, suc, Bool, true, false, ◌&&◌, leb, Option, none, some, List,
  [], ◌∷◌, ◌++◌, ⊤, All, if◌then◌else◌,
}
use gnodi.Base.Text.{Bytes, bytes_equal_iff}
use gnodi.Base.Result.{Result, ok, err, ◌>>◌, fail_if}
use gnodi.App.Ante.{
  Msg, exec, grant, submit_proposal, other, Payload, undecodable, inner, Msgs, no_more, more,
}
use gnodi.App.Ante.{
  max_group_nested_msgs, is_disabled, check_grant, check_msg, check_payload, check_msgs, check_tx,
  ante_handle, AnteError, CheckError, unauthorized, too_deep, disabled_msg, unreadable,
}

-- What a message is, apart from the messages in it.
pub data Content : Type 0 where
  container broken : Content
  granting plain : Bytes → Content

-- A message met on the way, with the number of its level, 1 for a message of the transaction.
pub record Visit : Type 0 where
  pub depth : ℕ
  pub inside : Bool
  pub content : Content

abbrev pub visit : ℕ → Bool → Content → Visit
visit depth inside content = record { depth = depth; inside = inside; content = content }

abbrev pub grant_content : Option Bytes → Content
grant_content none = broken
grant_content (some type_url) = granting type_url

unfoldable mutual
  pub visits : Msg → Bool → ℕ → List Visit
  visits (exec p) inside depth = visits_payload p inside depth
  visits (submit_proposal p) inside depth = visits_payload p inside depth
  visits (grant a) inside depth = visit depth inside (grant_content a) ∷ []
  visits (other type_url) inside depth = visit depth inside (plain type_url) ∷ []

  pub visits_payload : Payload → Bool → ℕ → List Visit
  visits_payload undecodable inside depth = visit depth inside broken ∷ []
  visits_payload (inner ms) inside depth =
      visit depth inside container ∷ visits_inner ms (suc depth)

  pub visits_inner : Msgs → ℕ → List Visit
  visits_inner no_more depth = []
  visits_inner (more m ms) depth = visits m true depth ++ visits_inner ms depth

unfoldable pub visits_tx : List Msg → List Visit
visits_tx [] = []
visits_tx (m ∷ ms) = visits m false 1 ++ visits_tx ms

-- None of the disabled URLs.
abbrev pub Enabled : List Bytes → Bytes → Type 0
Enabled ds url = All (λ d. url ≢ d) ds

abbrev pub Harmless : List Bytes → Bool → Content → Type 0
Harmless ds inside container = ⊤
Harmless ds inside broken = ⊥
Harmless ds inside (granting url) = Enabled ds url
Harmless ds true (plain url) = Enabled ds url
Harmless ds false (plain url) = ⊤

-- Less than 7 levels down, readable, no grant of a disabled message, and none in a container.
abbrev pub Admissible : List Bytes → Visit → Type 0
Admissible ds v = (v.depth < max_group_nested_msgs) × Harmless ds v.inside v.content

is_disabled_iff : (ds : List Bytes) (url : Bytes) → (is_disabled ds url ≡ false) ↔ Enabled ds url
unfolding is_disabled
is_disabled_iff [] url = ground arith
is_disabled_iff (d ∷ ds) url = ground (arith, bytes_equal_iff url d, is_disabled_iff ds url)

All-append :
    {A : Type 0} (P : A → Type 0) (xs ys : List A) → All P (xs ++ ys) ↔ (All P xs × All P ys)
All-append P [] ys = ground arith
All-append P (x ∷ xs) ys = ground (arith, All-append P xs ys)

seq-ok :
    (r : Result CheckError ⊤) (k : Result CheckError ⊤)
    → ((r >> k) ≡ ok tt) ↔ ((r ≡ ok tt) × (k ≡ ok tt))
seq-ok (ok _) k = ground arith
seq-ok (err e) k = ground arith

↔-trans : {A B C : Type 0} → A ↔ B → B ↔ C → A ↔ C
↔-trans (f, g) (h, k) = (λ a. h (f a), λ c. g (k c))

swap_iff : {A B : Type 0} → A ↔ B → B ↔ A
swap_iff (f, g) = (g, f)

↔-pair : {A B C D : Type 0} → A ↔ B → C ↔ D → (A × C) ↔ (B × D)
↔-pair (f, g) (h, k) = (λ (a, c). (f a, h c), λ (b, d). (g b, k d))

-- The test of the level, before a message without and with a payload.
leaf_iff :
    {H : Type 0} (d : ℕ) (r : Result CheckError ⊤)
    → (r ≡ ok tt) ↔ H
    → ((if leb max_group_nested_msgs d then err too_deep else r) ≡ ok tt)
      ↔ ((d < max_group_nested_msgs × H) × ⊤)
leaf_iff d r h = ground arith

node_iff :
    {H : Type 0} (d : ℕ) (r : Result CheckError ⊤)
    → (r ≡ ok tt) ↔ H
    → ((if leb max_group_nested_msgs d then err too_deep else r) ≡ ok tt)
      ↔ ((d < max_group_nested_msgs × ⊤) × H)
node_iff d r h = ground arith

Harmless-plain :
    (ds : List Bytes) (inside : Bool) (url : Bytes) (e : CheckError)
    → (fail_if (inside && is_disabled ds url) e ≡ ok tt) ↔ Harmless ds inside (plain url)
Harmless-plain ds true url e = ground (arith, is_disabled_iff ds url)
Harmless-plain ds false url e = ground arith

Harmless-grant :
    (ds : List Bytes) (inside : Bool) (a : Option Bytes)
    → (check_grant ds a ≡ ok tt) ↔ Harmless ds inside (grant_content a)
unfolding check_grant
Harmless-grant ds inside none = ground arith
Harmless-grant ds inside (some url) = ground (arith, is_disabled_iff ds url)

mutual
  unfolding visits check_msg

  check_msg_iff :
      (ds : List Bytes) (m : Msg) (inside : Bool) (depth : ℕ)
      → (check_msg ds m inside depth ≡ ok tt) ↔ All (Admissible ds) (visits m inside depth)
  check_msg_iff ds (exec p) inside d = check_payload_iff ds p inside d
  check_msg_iff ds (submit_proposal p) inside d = check_payload_iff ds p inside d
  check_msg_iff ds (grant a) inside d = leaf_iff d (check_grant ds a) (Harmless-grant ds inside a)
  check_msg_iff ds (other url) inside d =
      leaf_iff d (fail_if (inside && is_disabled ds url) (disabled_msg url))
        (Harmless-plain ds inside url (disabled_msg url))

  check_payload_iff :
      (ds : List Bytes) (p : Payload) (inside : Bool) (depth : ℕ)
      → ((if leb max_group_nested_msgs depth then err too_deep else check_payload ds p (suc depth))
          ≡ ok tt)
        ↔ All (Admissible ds) (visits_payload p inside depth)
  check_payload_iff ds undecodable inside d = leaf_iff d (err unreadable) (ground arith)
  check_payload_iff ds (inner ms) inside d =
      node_iff d (check_msgs ds ms (suc d)) (check_msgs_iff ds ms (suc d))

  check_msgs_iff :
      (ds : List Bytes) (ms : Msgs) (depth : ℕ)
      → (check_msgs ds ms depth ≡ ok tt) ↔ All (Admissible ds) (visits_inner ms depth)
  check_msgs_iff ds no_more d = ground arith
  check_msgs_iff ds (more m ms) d = ↔-trans (seq-ok (check_msg ds m true d) (check_msgs ds ms d)) (
      ↔-trans (↔-pair (check_msg_iff ds m true d) (check_msgs_iff ds ms d))
        (swap_iff (All-append (Admissible ds) (visits m true d) (visits_inner ms d))))

check_tx_iff :
    (ds : List Bytes) (ms : List Msg)
    → (check_tx ds ms ≡ ok tt) ↔ All (Admissible ds) (visits_tx ms)
unfolding check_tx visits_tx
check_tx_iff ds [] = ground arith
check_tx_iff ds (m ∷ ms) = ↔-trans (seq-ok (check_msg ds m false 1) (check_tx ds ms)) (
    ↔-trans (↔-pair (check_msg_iff ds m false 1) (check_tx_iff ds ms))
      (swap_iff (All-append (Admissible ds) (visits m false 1) (visits_tx ms))))

-- For a transaction all of whose messages are admissible, which is fewer than 7 levels down,
-- readable, no grant of a disabled message and no disabled message in a container, the later
-- handlers run on the same context and their answer is the result.
pub ante_handle_passes :
    {C : Type 0} (ds : List Bytes) (ms : List Msg) (next : C → Result AnteError C) (ctx : C)
    → All (Admissible ds) (visits_tx ms)
    → ante_handle ds ms next ctx ≡ next ctx
unfolding ante_handle
ante_handle_passes ds ms next ctx h = rw ((check_tx_iff ds ms).1 h)

-- A transaction with a message that is not admissible, which is 7 or more levels down, not
-- readable, a grant of a disabled message, or a disabled message in a container, is refused as
-- unauthorized, whatever the later handlers do.
pub ante_handle_refuses :
    {C : Type 0} (ds : List Bytes) (ms : List Msg) (next : C → Result AnteError C) (ctx : C)
    → ¬ All (Admissible ds) (visits_tx ms)
    → (e : CheckError) × (ante_handle ds ms next ctx ≡ err (unauthorized e))
unfolding ante_handle
ante_handle_refuses ds ms next ctx h = by_result (check_tx ds ms) refl
  where
    by_result :
        (r : Result CheckError ⊤)
        → check_tx ds ms ≡ r
        → (e : CheckError) × (ante_handle ds ms next ctx ≡ err (unauthorized e))
    by_result (ok _) e = absurd (h ((check_tx_iff ds ms).0 e))
    by_result (err e) q = (e, rw q)
