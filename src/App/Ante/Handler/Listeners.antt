-- ===== src/App/Ante/Handler/Listeners.antt =====
-- What the listeners of pending transactions hear.
use gnodi.Base.{refl, sym, ap, ◌∙◌, ℕ, ◌≡◌, ◌≢◌, List, [], ◌∷◌, ◌++◌, map, All}
use gnodi.App.Ante.Handler.{
  EvmAnte, App, Listener, call_listeners, on_pending_tx, register_pending_tx_listener,
}

-- A listener that is registered, by its number, or the hash of a pending transaction.
pub data Event (Hash : Type 0) : Type 0 where
  registers : ℕ → Event Hash
  pending : Hash → Event Hash

unfoldable pub hashes : {Hash : Type 0} → List (Event Hash) → List Hash
hashes [] = []
hashes (registers i ∷ events) = hashes events
hashes (pending hash ∷ events) = hash ∷ hashes events

-- Not the registration of a listener.
abbrev pub Other : {Hash : Type 0} → ℕ → Event Hash → Type 0
Other i (registers j) = i ≢ j
Other i (pending hash) = Unit

map-append : {A B : Type 0} (f : A → B) (xs ys : List A) → map f (xs ++ ys) ≡ map f xs ++ map f ys
map-append f [] ys = refl
map-append f (x ∷ xs) ys = ap (λ l. f x ∷ l) (map-append f xs ys)

append_assoc : {A : Type 0} (xs ys zs : List A) → (xs ++ ys) ++ zs ≡ xs ++ (ys ++ zs)
append_assoc [] ys zs = refl
append_assoc (x ∷ xs) ys zs = ap (λ l. x ∷ l) (append_assoc xs ys zs)

append_nil : {A : Type 0} (xs : List A) → xs ++ [] ≡ xs
append_nil [] = refl
append_nil (x ∷ xs) = ap (λ l. x ∷ l) (append_nil xs)

module _ (k : EvmAnte) (listener : ℕ → Listener k) (heard : ℕ → k.World → List k.Hash) where
  open k use {Hash, World}

  -- A listener hears what it is called with, and nothing of the calls of others.
  pub record IsHeard : Type 0 where
    pub own : (i : ℕ) (h : Hash) (w : World) → heard i (listener i h w) ≡ heard i w ++ h ∷ []
    pub others : (i j : ℕ) (h : Hash) (w : World) → i ≢ j → heard i (listener j h w) ≡ heard i w

  unfoldable pub happen : List (Event Hash) → App k → World → App k × World
  happen [] app w = (app, w)
  happen (registers i ∷ events) app w =
      happen events (register_pending_tx_listener k (listener i) app) w
  happen (pending hash ∷ events) app w = happen events app (on_pending_tx k app hash w)

  module _ (law : IsHeard) (i : ℕ) where
    abbrev pub IsAbsent : List ℕ → Type 0
    IsAbsent ids = All (λ j. i ≢ j) ids

    IsAbsent-append : (xs ys : List ℕ) → IsAbsent xs → IsAbsent ys → IsAbsent (xs ++ ys)
    IsAbsent-append [] ys h g = g
    IsAbsent-append (x ∷ xs) ys (h, hs) g = (h, IsAbsent-append xs ys hs g)

    abbrev calls : List ℕ → Hash → World → World
    calls ids = call_listeners k (map listener ids)

    calls_absent :
        (ids : List ℕ) (h : Hash) (w : World) → IsAbsent ids → heard i (calls ids h w) ≡ heard i w
    unfolding call_listeners
    calls_absent [] h w n = refl
    calls_absent (j ∷ ids) h w (n, ns) =
        calls_absent ids h (listener j h w) ns ∙ law.others i j h w n

    calls_once :
        (xs ys : List ℕ) (h : Hash) (w : World)
        → IsAbsent xs
        → IsAbsent ys
        → heard i (calls (xs ++ i ∷ ys) h w) ≡ heard i w ++ h ∷ []
    unfolding call_listeners
    calls_once [] ys h w n m = calls_absent ys h (listener i h w) m ∙ law.own i h w
    calls_once (x ∷ xs) ys h w (n, ns) m =
        calls_once xs ys h (listener x h w) ns m ∙ ap (λ l. l ++ h ∷ []) (law.others i x h w n)

    -- The listeners of an application, by their numbers.
    abbrev pub Has : List ℕ → App k → Type 0
    Has ids app = app.pending_tx_listeners ≡ map listener ids

    Has-register :
        (ids : List ℕ) (app : App k) (j : ℕ)
        → Has ids app
        → Has (ids ++ j ∷ []) (register_pending_tx_listener k (listener j) app)
    unfolding register_pending_tx_listener
    Has-register ids app j e =
        ap (λ l. l ++ listener j ∷ []) e ∙ sym (map-append listener ids (j ∷ []))

    -- Once registered, a listener hears every hash.
    happen_after :
        (events : List (Event Hash)) (app : App k) (w : World) (xs ys : List ℕ)
        → Has (xs ++ i ∷ ys) app
        → IsAbsent xs
        → IsAbsent ys
        → All (Other i) events
        → heard i (happen events app w).1 ≡ heard i w ++ hashes events
    unfolding happen hashes on_pending_tx
    happen_after [] app w xs ys e n m o = sym (append_nil (heard i w))
    happen_after (registers j ∷ events) app w xs ys e n m (o, os) =
        happen_after events (register_pending_tx_listener k (listener j) app) w xs (ys ++ j ∷ [])
          (Has-register (xs ++ i ∷ ys) app j e
            ∙ ap (map listener) {x = (xs ++ i ∷ ys) ++ j ∷ []} {y = xs ++ i ∷ (ys ++ j ∷ [])}
                (append_assoc xs (i ∷ ys) (j ∷ [])))
          n (IsAbsent-append ys (j ∷ []) m (o, tt)) os
    happen_after (pending h ∷ events) app w xs ys e n m (o, os) =
        happen_after events app (call_listeners k app.pending_tx_listeners h w) xs ys e n m os
        ∙ ap (λ l. l ++ hashes events)
            (ap (λ l. heard i (call_listeners k l h w)) e ∙ calls_once xs ys h w n m)
        ∙ append_assoc (heard i w) (h ∷ []) (hashes events)

    -- A listener that is registered once, and not before: it hears the hashes that are pending
    -- after its registration, all of them and in their order, whatever the other listeners are. A
    -- listener is taken to hear what it is called with and nothing of the calls of others.
    pub happen_hears :
        (before after : List (Event Hash)) (app : App k) (w : World) (ids : List ℕ)
        → Has ids app
        → IsAbsent ids
        → All (Other i) before
        → All (Other i) after
        → heard i (happen (before ++ registers i ∷ after) app w).1 ≡ heard i w ++ hashes after
    unfolding happen on_pending_tx
    happen_hears [] after app w ids e n o p =
        happen_after after (register_pending_tx_listener k (listener i) app) w ids []
          (Has-register ids app i e) n tt p
    happen_hears (registers j ∷ before) after app w ids e n (o, os) p =
        happen_hears before after (register_pending_tx_listener k (listener j) app) w
          (ids ++ j ∷ []) (Has-register ids app j e) (IsAbsent-append ids (j ∷ []) n (o, tt)) os p
    happen_hears (pending h ∷ before) after app w ids e n (o, os) p =
        happen_hears before after app (call_listeners k app.pending_tx_listeners h w) ids e n os p
        ∙ ap (λ l. l ++ hashes after)
            (ap (λ l. heard i (call_listeners k l h w)) e ∙ calls_absent ids h w n)
