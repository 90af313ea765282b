-- ===== src/Config/Address.antt =====
-- cmd/config/config.go: the address that `GetListenAddr` formats.
use consensus_proxy.Base.{ℕ, ◌≤◌, ◌∷◌, pos, ◌≡◌, ap, none}
use consensus_proxy.Http.{Bytes}
use consensus_proxy.Format.{decimal, decimal_ℤ, read_digits, read_digits-decimal}
use consensus_proxy.Config.{Config, get_listen_addr}
use consensus_proxy.Config.Validation.{validate}
use consensus_proxy.Config.Validation.Laws.{validate_iff}

-- The listen address of an accepted configuration is a colon and the digits of its port: they read
-- back as a number from 1 to 65535.
pub get_listen_addr-validate :
    (c : Config)
    → validate c ≡ none
    → (port : ℕ) × (s : Bytes) × (get_listen_addr c ≡ b':' ∷ s)
      × (read_digits 0 s ≡ port)
      × (c.server.port ≡ pos port)
      × (1 ≤ port)
      × (port ≤ 65535)
unfolding get_listen_addr decimal_ℤ
get_listen_addr-validate c h =
    let (port, e, low, high) = ((validate_iff c).0 h).server.0 in
    (port, decimal port, ap (λ p. b':' ∷ decimal_ℤ p) e, read_digits-decimal port, e, low, high)
