-- ===== src/Simulation/Access.antt =====
-- simulation/access/domain/allowlist.go: which addresses may reach a stand. net/netip and
-- net.SplitHostPort are a record of arguments.
pub mod Forwarded
use payme_mock.Base.{
  ℕ, Bool, true, false, not, ◌&&◌, ◌||◌, Option, none, some, List, [], ◌∷◌, if◌then◌else◌,
}
use payme_mock.Base.Int.{ℤ}
use payme_mock.Base.Text.{Text, text, is_empty}
use payme_mock.Base.Strings.{split, trim_space, contains}

-- `none` is an error. `prefix_from` is PrefixFrom(addr, addr.BitLen()), the network of one address;
-- `host_of` is the host that SplitHostPort finds.
pub record Net (Addr Prefix : Type 0) : Type 0 where
  pub parse_addr : Text → Option Addr
  pub parse_prefix : Text → Option Prefix
  pub masked : Prefix → Prefix
  pub prefix_from : Addr → Prefix
  pub unmap : Addr → Addr
  pub covers : Prefix → Addr → Bool
  pub host_of : Text → Option Text

pub record Rule (Prefix : Type 0) : Type 0 where
  pub id : ℤ
  pub sandbox_id : ℤ
  pub network : Prefix
  pub note : Text

abbrev pub Allowlist : Type 0 → Type 0
Allowlist Prefix = List (Rule Prefix)

abbrev pub comma : ℕ
comma = 44

module _ {Addr Prefix : Type 0} (net : Net Addr Prefix) where
  -- The loop of `Allows`, on an address in its plain form.
  unfoldable pub any_covers : Allowlist Prefix → Addr → Bool
  any_covers [] addr = false
  any_covers (rule ∷ rules) addr = net.covers rule.network addr || any_covers rules addr

  -- `Allows`
  unfoldable pub allows : Allowlist Prefix → Addr → Bool
  unfolding any_covers
  allows [] addr = true
  allows (rule ∷ rules) addr = any_covers (rule ∷ rules) (net.unmap addr)

  abbrev masked_prefix : Option Prefix → Option Prefix
  masked_prefix none = none
  masked_prefix (some p) = some (net.masked p)

  abbrev single : Option Addr → Option Prefix
  single none = none
  single (some addr) = some (net.prefix_from (net.unmap addr))

  -- `ParsePrefix`
  unfoldable pub parse_prefix : Text → Option Prefix
  unfolding contains trim_space
  parse_prefix raw =
      let trimmed = trim_space raw in
      if is_empty trimmed
      then none
      else if contains 47 trimmed
      then masked_prefix (net.parse_prefix trimmed)
      else single (net.parse_addr trimmed)

  abbrev pub first_of : Option Addr → Option Addr → Option Addr
  first_of (some addr) later = some addr
  first_of none later = later

  abbrev plain : Option Addr → Option Addr
  plain none = none
  plain (some addr) = some (net.unmap addr)

  -- The loop from the right of the forwarded chain.
  unfoldable pub rightmost : List Text → Option Addr
  rightmost [] = none
  rightmost (part ∷ parts) =
      let right = rightmost parts in first_of right (net.parse_addr (trim_space part))

  abbrev host : Option Text → Text → Text
  host none remote = remote
  host (some h) remote = h

  abbrev pub peer : Text → Option Addr
  peer remote = net.parse_addr (host (net.host_of remote) remote)

  -- `ClientAddr`
  unfoldable pub client_addr : Text → Text → Bool → Option Addr
  unfolding rightmost
  client_addr remote forwarded_for trusted =
      if trusted && not (is_empty forwarded_for)
      then plain (first_of (rightmost (split comma forwarded_for)) (peer remote))
      else plain (peer remote)
