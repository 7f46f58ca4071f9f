-- ===== src/Kernel/Http/Allowlist.antt =====
-- internal/kernel/httpx/allowlist.go: a request from an address that the stand does not list is
-- refused before anything else looks at it. What is logged is left out.
use payme_mock.Base.{Bool, false, not, Option, none, some, [], ◌∷◌, if◌then◌else◌}
use payme_mock.Base.Int.{ℤ}
use payme_mock.Base.Text.{text}
use payme_mock.Kernel.Effect.{Result, ok, err}
use payme_mock.Kernel.Http.{Request, Sandbox, Handler, header, forbidden, internal_error}
use payme_mock.Simulation.Access as Access
use payme_mock.Simulation.Access.{Net, Rule, allows, client_addr, comma}

module _ {Addr Prefix W : Type 0} (net : Net Addr Prefix)
    (by_sandbox : ℤ → W → Result (Access.Allowlist Prefix)) (trust_forwarded : Bool) where
  address : Request → Option Addr
  address r = client_addr net r.remote_addr (header (text "X-Forwarded-For") r) trust_forwarded

  listed : Access.Allowlist Prefix → Option Addr → Bool
  listed rules none = false
  listed rules (some addr) = allows net rules addr

  checked : Result (Access.Allowlist Prefix) → Handler W → Handler W
  unfolding listed address
  checked (err e) next r w = (internal_error, r, w)
  checked (ok []) next r w = next r w
  checked (ok (rule ∷ rules)) next r w =
      if not (listed (rule ∷ rules) (address r)) then (forbidden, r, w) else next r w

  admitted : Option Sandbox → Handler W → Handler W
  unfolding checked
  admitted none next r w = (internal_error, r, w)
  admitted (some sandbox) next r w = checked (by_sandbox sandbox.id w) next r w

  -- `Allowlist`
  unfoldable pub allowlist : Handler W → Handler W
  unfolding admitted
  allowlist next r w = admitted r.sandbox next r w
