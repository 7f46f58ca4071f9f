-- ===== src/Simulation/Access/Forwarded.antt =====
-- Which address simulation/access/domain/allowlist.go reads from a forwarded chain.
use payme_mock.Base.{◌≡◌, refl, true, false, some, List, [], ◌∷◌, ◌++◌}
use payme_mock.Base.Text.{Text, is_empty}
use payme_mock.Base.Strings.{split, trim_space}
use payme_mock.Base.Strings.Laws.{Lacks, split_last}
use payme_mock.Simulation.Access.{Net, comma, rightmost, client_addr}

append_nonempty : (s t : Text) → is_empty (s ++ (comma ∷ t)) ≡ false
append_nonempty [] t = refl
append_nonempty (x ∷ s) t = refl

module _ {Addr Prefix : Type 0} (net : Net Addr Prefix) where
  rightmost-append :
      (parts : List Text) (last : Text) {addr : Addr}
      → net.parse_addr (trim_space last) ≡ some addr
      → rightmost net (parts ++ (last ∷ [])) ≡ some addr
  unfolding rightmost
  rightmost-append [] last e = rw e
  rightmost-append (p ∷ parts) last e = rw (rightmost-append parts last e)

  -- Behind a trusted proxy the address is the one after the last comma of the forwarded chain, where
  -- it parses: whatever stands before that comma, and whatever the peer's own address, the answer is
  -- that address in its plain form.
  pub client_addr-append :
      (remote claimed last : Text) {addr : Addr}
      → Lacks comma last
      → net.parse_addr (trim_space last) ≡ some addr
      → client_addr net remote (claimed ++ (comma ∷ last)) true ≡ some (net.unmap addr)
  unfolding client_addr
  client_addr-append remote claimed last h e = rw (
    append_nonempty claimed last,
    split_last comma claimed last h,
    rightmost-append (split comma claimed) last e,
  )
