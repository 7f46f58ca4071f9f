-- ===== src/Console/Session.antt =====
-- cmd/console/session.go: the logins of the console. A moment is in nanoseconds, a token is what
-- crypto/rand gave, and package net is an argument.
use payme_mock.Base.{
  ◌≡◌, Bool, false, ◌&&◌, ◌||◌, Option, none, some, [], ◌∷◌, if◌then◌else◌, arith,
}
use payme_mock.Base.Int.{ℤ, pos, ltb_ℤ, ◌+ℤ◌}
use payme_mock.Base.Text.{Text, eq_text}
use payme_mock.Base.Dict.{
  Dict, insert, delete, text_eq, lookup-insert, lookup-insert_self, lookup-delete,
}
use payme_mock.Base.Dict as Dict

-- `sessionTTL`
abbrev pub session_ttl : ℤ
session_ttl = pos 43200000000000

pub record Session : Type 0 where
  pub user : Text
  pub expires_at : ℤ

-- `sessions`
abbrev pub Sessions : Type 0
Sessions = Dict Text Session

abbrev pub expired : Session → ℤ → Bool
expired item now = ltb_ℤ item.expires_at now

unfoldable pub drop_expired : ℤ → Sessions → Sessions
drop_expired now [] = []
drop_expired now ((token, item) ∷ items) =
    let rest = drop_expired now items in if expired item now then rest else (token, item) ∷ rest

-- `sessions.issue`
unfoldable pub issue : Text → Text → ℤ → Sessions → Sessions
issue token user now items =
    insert token (record { user = user; expires_at = now +ℤ session_ttl }) (drop_expired now items)

abbrev pub live_user : ℤ → Option Session → Option Text
live_user now none = none
live_user now (some item) = if expired item now then none else some item.user

-- `sessions.lookup`
unfoldable pub lookup : Text → ℤ → Sessions → Option Text
lookup token now items = live_user now (Dict.lookup token items)

-- `sessions.revoke`
unfoldable pub revoke : Text → Sessions → Sessions
revoke token items = delete token items

pub record Config : Type 0 where
  pub username : Text
  pub password : Text

-- `config.checkCredentials`
unfoldable pub check_credentials : Config → Text → Text → Bool
check_credentials c user password = eq_text user c.username && eq_text password c.password

pub record Net (Ip : Type 0) : Type 0 where
  pub split_host : Text → Option Text
  pub parse_ip : Text → Option Ip
  pub is_loopback : Ip → Bool
  pub is_private : Ip → Bool

module _ {Ip : Type 0} (net : Net Ip) where
  abbrev pub local_ip : Bool → Option Ip → Bool
  local_ip trust_private none = false
  local_ip trust_private (some ip) = net.is_loopback ip || (trust_private && net.is_private ip)

  abbrev pub local_host : Bool → Option Text → Bool
  local_host trust_private none = false
  local_host trust_private (some host) = local_ip trust_private (net.parse_ip host)

  -- `peerIsLocal`
  unfoldable pub peer_is_local : Text → Bool → Bool
  peer_is_local remote_addr trust_private = local_host trust_private (net.split_host remote_addr)

  -- `loopback`
  unfoldable pub loopback : Text → Bool
  unfolding peer_is_local
  loopback remote_addr = peer_is_local remote_addr false

-- A login is live for its own token until its time is over, whatever else is signed in.
lookup-issue :
    (token user : Text) (now later : ℤ) (items : Sessions)
    → lookup token later (issue token user now items)
      ≡ (if ltb_ℤ (now +ℤ session_ttl) later then none else some user)
unfolding lookup issue
lookup-issue token user now later items =
    rw
      (lookup-insert_self token (record { user = user; expires_at = now +ℤ session_ttl })
        (drop_expired now items))
      (ground arith)

-- A session that was revoked is not found at any moment, and no other session is touched.
lookup-revoke :
    (token other : Text) (now : ℤ) (items : Sessions)
    → lookup other now (revoke token items)
      ≡ (if eq_text token other then none else lookup other now items)
unfolding lookup revoke
lookup-revoke token other now items = ground (arith, lookup-delete token other items)
