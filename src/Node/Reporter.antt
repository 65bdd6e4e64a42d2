-- ===== src/Node/Reporter.antt =====
-- internal/node/reporter.go: the notifications that a node sends of itself. The host's name, its
-- interfaces and its memory are given from outside; an address of Go's package net is its bytes.
use sit.Prelude.{
  ◌≡◌, refl, ℕ, ◌-◌, ◌/◌, ◌^◌, Text, text, ◌==◌, Bool, false, ◌&&◌, ◌||◌, Option, none, some, List,
  [], ◌∷◌, ◌++◌, nat_eq, has, length, take, drop, if◌then◌else◌,
}
use sit.Protocol.{Bytes, Addr, Notification, blank, register, heartbeat, event}

-- An address of an interface: an IP network, or one of another kind.
pub data NetAddr : Type 0 where
  ip_net : Bytes → NetAddr
  other : NetAddr

pub record Interface : Type 0 where
  pub name : Text
  pub is_up : Bool
  pub addrs : Option (List NetAddr)  -- `none` where they cannot be read

pub record Facts : Type 0 where
  pub hostname : Text
  pub os : Text
  pub arch : Text
  pub interfaces : Option (List Interface)
  pub ip_text : Bytes → Text  -- IP.String

-- net.IP.To4
abbrev mapped_prefix : Bytes
mapped_prefix = 0 ∷ 0 ∷ 0 ∷ 0 ∷ 0 ∷ 0 ∷ 0 ∷ 0 ∷ 0 ∷ 0 ∷ 255 ∷ 255 ∷ []

unfoldable pub to4 : Bytes → Option Bytes
to4 ip =
    if nat_eq (length ip) 4
    then some ip
    else if nat_eq (length ip) 16 && take 12 ip == mapped_prefix
    then some (drop 12 ip)
    else none

abbrev loopback6 : Bytes
loopback6 = 0 ∷ 0 ∷ 0 ∷ 0 ∷ 0 ∷ 0 ∷ 0 ∷ 0 ∷ 0 ∷ 0 ∷ 0 ∷ 0 ∷ 0 ∷ 0 ∷ 0 ∷ 1 ∷ []

abbrev zero6 : Bytes
zero6 = 0 ∷ 0 ∷ 0 ∷ 0 ∷ 0 ∷ 0 ∷ 0 ∷ 0 ∷ 0 ∷ 0 ∷ 0 ∷ 0 ∷ 0 ∷ 0 ∷ 0 ∷ 0 ∷ []

-- the first two bytes
abbrev first_two : (ℕ → ℕ → Bool) → Bytes → Bool
first_two test (a ∷ b ∷ rest) = test a b
first_two test _ = false

-- a test on the four bytes of an IPv4 address, or on another address
by_family : (Bytes → Bool) → (Bytes → Bool) → Bytes → Bool
by_family four six ip = elim (to4 ip) [ some v4 ↦ four v4 | none ↦ six ip ]

-- IsLoopback
unfoldable pub is_loopback : Bytes → Bool
unfolding by_family
is_loopback = by_family (first_two (λ a b. nat_eq a 127)) (λ ip. ip == loopback6)

-- IsLinkLocalUnicast
unfoldable pub is_link_local : Bytes → Bool
unfolding by_family
is_link_local =
    by_family (first_two (λ a b. nat_eq a 169 && nat_eq b 254))
      (λ ip. nat_eq (length ip) 16 && first_two (λ a b. nat_eq a 254 && nat_eq (b / 64) 2) ip)

-- IsPrivate
unfoldable pub is_private : Bytes → Bool
unfolding by_family
is_private =
    by_family
      (first_two (λ a b.
        nat_eq a 10 || (nat_eq a 172 && nat_eq (b / 16) 1) || (nat_eq a 192 && nat_eq b 168)))
      (λ ip. nat_eq (length ip) 16 && first_two (λ a b. nat_eq (a / 2) 126) ip)

-- IsUnspecified
unfoldable pub is_unspecified : Bytes → Bool
unfolding by_family
is_unspecified = by_family (λ v4. v4 == 0 ∷ 0 ∷ 0 ∷ 0 ∷ []) (λ ip. ip == zero6)

unfoldable pub family : Bytes → Text
family ip = if has (to4 ip) then text "v4" else text "v6"

unfoldable pub scope : Bytes → Text
scope ip =
    if is_loopback ip
    then text "loopback"
    else if is_link_local ip
    then text "link"
    else if is_private ip
    then text "private"
    else text "global"

module _ (f : Facts) where
  addr_of : Text → Bytes → Addr
  addr_of iface ip = record {
    ip = f.ip_text ip;
    family = family ip;
    iface = iface;
    scope = scope ip;
  }

  unfoldable pub net_addrs : Text → List NetAddr → List Addr
  unfolding addr_of
  net_addrs iface [] = []
  net_addrs iface (other ∷ rest) = net_addrs iface rest
  net_addrs iface (ip_net [] ∷ rest) = net_addrs iface rest  -- ip == nil
  net_addrs iface (ip_net (b ∷ bs) ∷ rest) =
      let more = net_addrs iface rest in
      if is_unspecified (b ∷ bs) then more else addr_of iface (b ∷ bs) ∷ more

  abbrev readable : Option (List NetAddr) → List NetAddr
  readable none = []
  readable (some addrs) = addrs

  unfoldable pub interface_addrs : List Interface → List Addr
  interface_addrs [] = []
  interface_addrs (i ∷ is) =
      let more = interface_addrs is in
      if i.is_up then net_addrs i.name (readable i.addrs) ++ more else more

  abbrev all_addrs : Option (List Interface) → List Addr
  all_addrs none = []
  all_addrs (some is) = interface_addrs is

  unfoldable pub enumerate_addrs : List Addr
  enumerate_addrs = all_addrs f.interfaces

pub record Reporter : Type 0 where
  pub node_id : Text
  pub version : Text
  pub start_ms : ℕ

module _ (r : Reporter) where
  unfoldable pub register_report : Facts → Notification
  register_report f = record (blank register) {
    node_id = r.node_id;
    hostname = f.hostname;
    os = f.os;
    arch = f.arch;
    version = r.version;
    addrs = enumerate_addrs f;
  }

  -- uptime in seconds and memory in MB, from the clock and the bytes allocated; the clock does not
  -- go back
  unfoldable pub heartbeat_report : ℕ → ℕ → Notification
  heartbeat_report now alloc = record (blank heartbeat) {
    uptime_sec = (now - r.start_ms) / 1000;
    mem_used_mb = alloc / 2 ^ 20;
  }

unfoldable pub event_report : Text → Text → Notification
event_report name detail = record (blank event) { event_name = name; detail = detail }

private_runs : scope (192 ∷ 168 ∷ 1 ∷ 2 ∷ []) ≡ text "private"
unfolding scope is_loopback is_link_local is_private by_family to4 ◌==◌
private_runs = refl

mapped_runs : scope (mapped_prefix ++ 127 ∷ 0 ∷ 0 ∷ 1 ∷ []) ≡ text "loopback"
unfolding scope is_loopback is_link_local is_private by_family to4 ◌==◌
mapped_runs = refl
