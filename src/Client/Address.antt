-- ===== src/Client/Address.antt =====
-- The address that the client connects to.
use kuksa_val_services.Prelude.{
  ℕ, suc, ◌+◌, ◌%◌, ◌^◌, ◌≡◌, ◌≢◌, ◌<◌, refl, [], ◌∷◌, ◌++◌, Option, none, some, take, length, All,
  arith, ap,
}
use kuksa_val_services.Client.{Text, last_index, change_to_dapr_port, construct}

abbrev pub HasNo : ℕ → Text → Type 0
HasNo c = All (λ x. x ≢ c)

last_index-none : (c : ℕ) (xs : Text) → HasNo c xs → last_index c xs ≡ none
unfolding last_index
last_index-none c [] h = refl
last_index-none c (x ∷ xs) h = ground (arith, last_index-none c xs h.1, h.0)

last_index_append :
    (c : ℕ) (xs ys : Text) → HasNo c ys → last_index c (xs ++ c ∷ ys) ≡ some (length xs)
unfolding last_index
last_index_append c [] ys h = ground (arith, last_index-none c ys h)
last_index_append c (x ∷ xs) ys h = ground (arith, last_index_append c xs ys h)

take-append : (c : ℕ) (xs ys : Text) → take (suc (length xs)) (xs ++ c ∷ ys) ≡ xs ++ c ∷ []
take-append c [] ys = refl
take-append c (x ∷ xs) ys = ap (◌∷◌ x) (take-append c xs ys)

-- With DAPR_GRPC_PORT set, a client for "host:port" connects to the same host at that port, also if the
-- host has colons; without it, to the given address.
pub construct-channel_addr :
    (host port dapr_port : Text) (app : Option Text)
    → HasNo b':' port
    → dapr_port ≢ []
    → length host + 1 < 2 ^ 64
    → ((construct (some dapr_port) app (host ++ b':' ∷ port)).channel_addr
        ≡ (host ++ b':' ∷ []) ++ dapr_port)
      × ((construct none app (host ++ b':' ∷ port)).channel_addr ≡ host ++ b':' ∷ port)
unfolding construct change_to_dapr_port
construct-channel_addr host port dapr_port app n e b =
    let m : (length host + 1) % 2 ^ 64 ≡ suc (length host) = omega arith in
    (ground (arith, last_index_append b':' host port n, take-append b':' host port, m), refl)

-- An address without a colon is lost: with DAPR_GRPC_PORT set the client connects to the bare port.
pub construct-no_colon :
    (addr dapr_port : Text) (app : Option Text)
    → HasNo b':' addr
    → dapr_port ≢ []
    → (construct (some dapr_port) app addr).channel_addr ≡ dapr_port
unfolding construct change_to_dapr_port
construct-no_colon addr dapr_port app n e = ground (arith, last_index-none b':' addr n)
