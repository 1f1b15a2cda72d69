-- ===== src/Address.antt =====
-- include/net/address.h and src/net/address.cpp: an IPv4 address with its port. htons, ntohs, inet_pton
-- and inet_ntop are parameters.
pub mod Text
pub mod Examples
use caimr.Prelude.{
  ℕ, ◌+◌, ◌-◌, ◌%◌, ◌^◌, ◌≤◌, ◌<◌, ◌≡◌, ◌≢◌, Option, none, some, Bytes, List, [], ◌∷◌, ◌++◌, length,
  take,
}
use caimr.LogStream.{ℤ, pos, decimal}

-- What is relied on of these functions: the byte order goes back and forth; the text of an address is
-- no longer than "255.255.255.255" and has no colon (58); and a text that is in the form in which
-- inet_ntop writes one is what inet_ntop makes of the address that inet_pton reads from it.
pub record Inet : Type 1 where
  pub InAddr : Type 0
  pub zero_addr : InAddr
  pub htons : ℕ → ℕ
  pub ntohs : ℕ → ℕ
  pub inet_pton : Bytes → InAddr → InAddr
  pub inet_ntop : InAddr → Bytes
  pub IsDotted : Bytes → Type 0
  pub ntohs_htons : (port : ℕ) → port < 2 ^ 16 → ntohs (htons port) ≡ port
  pub ntohs_small : (n : ℕ) → ntohs n < 2 ^ 16
  pub ntop_length : (a : InAddr) → length (inet_ntop a) ≤ 15
  pub ntop_chars : (a : InAddr) (xs ys : Bytes) (c : ℕ) → inet_ntop a ≡ xs ++ c ∷ ys → c ≢ 58
  pub ntop_pton : (ip : Bytes) (a : InAddr) → IsDotted ip → inet_ntop (inet_pton ip a) ≡ ip

module _ (net : Inet) where
  -- `addr_`, of the family AF_INET.
  pub record Address : Type 0 where
    pub sin_port : ℕ
    pub sin_addr : net.InAddr

  -- `ip` is the text up to its first 0 (`c_str`). A text that inet_pton cannot read leaves the zeros of memset.
  unfoldable pub create : (port : ℕ) → (ip : Bytes) → Address
  create port ip = record { sin_port = net.htons port; sin_addr = net.inet_pton ip net.zero_addr }

  -- The 64 characters of the buffer have room for any address.
  unfoldable pub to_ip : Address → Bytes
  to_ip a = net.inet_ntop a.sin_addr

  -- ":%u" is printed behind the address, into what is left of the 64 characters.
  unfoldable pub to_ip_port : Address → Bytes
  to_ip_port a =
      let ip = net.inet_ntop a.sin_addr in
      ip ++ take (64 - length ip - 1) (58 ∷ decimal (pos (net.ntohs a.sin_port)))

  unfoldable pub to_port : Address → ℕ
  to_port a = net.ntohs a.sin_port

  abbrev pub set_sock_addr : Address → Address → Address
  set_sock_addr addr a = addr
