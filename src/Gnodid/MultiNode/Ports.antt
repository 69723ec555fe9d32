-- ===== src/Gnodid/MultiNode/Ports.antt =====
-- The ports that the nodes of a testnet listen on.
use gnodi.Base.{
  ap, subst, arith, leb, if◌then◌else◌, ◌==◌, ◌/◌, ◌%◌, ℕ, ◌+◌, ◌-◌, ◌*◌, ◌≤◌, ◌<◌, ◌≡◌, ◌∙◌, sym,
  refl,
}
use gnodi.Base.Int.{ℤ, pos, pos_part, ◌-ℤ◌, ◌≤ℤ◌}

unfoldable pub rpc_port : ℕ → ℤ
rpc_port i = pos 26657 -ℤ pos (3 * i)

unfoldable pub p2p_port : ℕ → ℤ
p2p_port i = pos 26656 -ℤ pos (3 * i)

unfoldable pub proxy_port : ℕ → ℤ
proxy_port i = pos 26658 -ℤ pos (3 * i)

unfoldable pub prometheus_port : ℕ → ℤ
prometheus_port i = pos (26660 + i)

unfoldable pub grpc_port : ℕ → ℤ
grpc_port i = pos 9090 -ℤ pos (2 * i)

unfoldable pub api_port : ℕ → ℤ
api_port i = pos 1317 -ℤ pos i

pub data Service : Type 0 where
  rpc p2p proxy prometheus grpc api : Service

-- The port of a service of node `i`.
abbrev pub port : Service → ℕ → ℤ
port rpc = rpc_port
port p2p = p2p_port
port proxy = proxy_port
port prometheus = prometheus_port
port grpc = grpc_port
port api = api_port

-- The same ports on ℕ, as long as there are at most 1317 nodes.
abbrev number : Service → ℕ → ℕ
number rpc i = 26657 - 3 * i
number p2p i = 26656 - 3 * i
number proxy i = 26658 - 3 * i
number prometheus i = 26660 + i
number grpc i = 9090 - 2 * i
number api i = 1317 - i

minus-pos : (a b : ℕ) → b ≤ a → pos a -ℤ pos b ≡ pos (a - b)
unfolding ◌-ℤ◌
minus-pos a b h = ground arith

port-number : (s : Service) (i : ℕ) → i < 1317 → port s i ≡ pos (number s i)
unfolding rpc_port p2p_port proxy_port prometheus_port grpc_port api_port
port-number rpc i h = minus-pos 26657 (3 * i) (omega arith)
port-number p2p i h = minus-pos 26656 (3 * i) (omega arith)
port-number proxy i h = minus-pos 26658 (3 * i) (omega arith)
port-number prometheus i h = refl
port-number grpc i h = minus-pos 9090 (2 * i) (omega arith)
port-number api i h = minus-pos 1317 i (omega arith)

-- The service and the node that a port belongs to.
abbrev local : ℕ → Service
local r = if r == 0 then proxy else if r == 1 then rpc else p2p

abbrev owner : ℕ → Service × ℕ
owner p =
    if leb 26660 p
    then (prometheus, p - 26660)
    else if leb 22000 p
    then (local ((26658 - p) % 3), (26658 - p) / 3)
    else if leb 2000 p
    then (grpc, (9090 - p) / 2)
    else (api, 1317 - p)

owner-number : (s : Service) (i : ℕ) → i < 1317 → owner (number s i) ≡ (s, i)
owner-number rpc i h = ground arith
owner-number p2p i h = ground arith
owner-number proxy i h = ground arith
owner-number prometheus i h = ground arith
owner-number grpc i h = ground arith
owner-number api i h = ground arith

number-within : (s : Service) (i : ℕ) → i < 1317 → (1 ≤ number s i) × (number s i ≤ 65535)
number-within rpc i h = ground arith
number-within p2p i h = ground arith
number-within proxy i h = ground arith
number-within prometheus i h = ground arith
number-within grpc i h = ground arith
number-within api i h = ground arith

bounds : (s : Service) (i : ℕ) → i < 1317 → (pos 1 ≤ℤ port s i) × (port s i ≤ℤ pos 65535)
bounds s i h =
    subst (λ p. (pos 1 ≤ℤ p) × (p ≤ℤ pos 65535)) (sym (port-number s i h))
      (ground (arith, number-within s i h))

-- With at most 1317 nodes, the RPC, P2P, application, Prometheus, gRPC and API ports of a node are
-- between 1 and 65535, and two of them that are equal are those of one service of one node.
pub ports_apart :
    (s t : Service) (i j : ℕ)
    → i < 1317
    → j < 1317
    → (pos 1 ≤ℤ port s i) × (port s i ≤ℤ pos 65535) × (port s i ≡ port t j → (s ≡ t) × (i ≡ j))
ports_apart s t i j hi hj = ((bounds s i hi).0, (bounds s i hi).1, same)
  where
    same : port s i ≡ port t j → (s ≡ t) × (i ≡ j)
    same h =
        let numbers = ap pos_part (sym (port-number s i hi) ∙ h ∙ port-number t j hj) in
        let owners = sym (owner-number s i hi) ∙ ap owner numbers ∙ owner-number t j hj in
        (ap (λ o. o.0) owners, ap (λ o. o.1) owners)
