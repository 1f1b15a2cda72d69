-- ===== src/Address/Text.antt =====
-- The texts of an address.
use caimr.Prelude.{
  ℕ, ◌-◌, ◌^◌, ◌≤◌, ◌<◌, ◌≡◌, ◌≢◌, refl, ap, ap₂, ◌∙◌, inl, inr, Bool-cases, Option, none, some,
  Bytes, [], ◌∷◌, ◌++◌, length, length-append, take, take_all, ◌==◌, ==_iff, if◌then◌else◌, arith,
}
use caimr.LogStream.{ℤ, pos, decimal}
use caimr.LogStream.Decimal.{read, read-decimal, length-decimal}
use caimr.Address.{Inet, Address, create, to_ip, to_ip_port, to_port}

-- A reader of "ip:port", written without regard to the code: it splits the text at the first colon.
abbrev pub with_port : Bytes → Option ℤ → Option (Bytes × ℤ)
with_port ip none = none
with_port ip (some port) = some (ip, port)

abbrev pub longer : ℕ → Option (Bytes × ℤ) → Option (Bytes × ℤ)
longer c none = none
longer c (some (ip, port)) = some (c ∷ ip, port)

abbrev pub read_ip_port : Bytes → Option (Bytes × ℤ)
read_ip_port [] = none
read_ip_port (c ∷ cs) = if c == 58 then with_port [] (read cs) else longer c (read_ip_port cs)

abbrev NoColon : Bytes → Type 0
NoColon ip = (xs ys : Bytes) (c : ℕ) → ip ≡ xs ++ c ∷ ys → c ≢ 58

longer-with_port :
    (c : ℕ) (ip : Bytes) (port : Option ℤ) → longer c (with_port ip port) ≡ with_port (c ∷ ip) port
longer-with_port c ip none = refl
longer-with_port c ip (some port) = refl

read-colon :
    (ip text : Bytes) → NoColon ip → read_ip_port (ip ++ 58 ∷ text) ≡ with_port ip (read text)
read-colon [] text h = refl
read-colon (c ∷ ip) text h = elim (Bool-cases (c == 58)) [
  | inl colon ↦ absurd (h [] ip c refl ((==_iff c 58).0 colon))
  | inr other ↦
      let rest = read-colon ip text (λ xs ys d e. h (c ∷ xs) ys d (ap (λ t. c ∷ t) e)) in
      simp other (ap (longer c) rest ∙ longer-with_port c ip (read text))
]

module _ (net : Inet) where
  -- `to_ip_port` is never cut off: whatever the address and the port are, it writes the address, a
  -- colon and the whole number of the port, 37 characters at most, where its buffer has 64.
  pub to_ip_port-whole :
      (a : Address net)
      → (to_ip_port net a ≡ to_ip net a ++ 58 ∷ decimal (pos (to_port net a)))
        × (length (to_ip_port net a) ≤ 37)
  unfolding to_ip to_ip_port to_port
  to_ip_port-whole a =
      let ip = net.inet_ntop a.sin_addr in
      let text = 58 ∷ decimal (pos (net.ntohs a.sin_port)) in
      let short = net.ntop_length a.sin_addr in
      let digits = length-decimal (pos (net.ntohs a.sin_port)) in
      let whole : take (64 - length ip - 1) text ≡ text =
        take_all (64 - length ip - 1) text (omega (arith, short, digits)) in
      (
        ap (λ t. ip ++ t) whole,
        omega (arith, ap (λ t. length (ip ++ t)) whole, length-append ip text, short, digits),
      )

  -- An address made from a port of 16 bits and an IP in dotted form gives both back: as `to_port` and
  -- `to_ip`, and in the text of `to_ip_port`, as a reader that knows nothing of the code reads it.
  pub address_lem :
      (port : ℕ) (ip : Bytes)
      → port < 2 ^ 16
      → net.IsDotted ip
      → let a = create net port ip in
        (to_port net a ≡ port)
        × (to_ip net a ≡ ip)
        × (read_ip_port (to_ip_port net a) ≡ some (ip, pos port))
  unfolding to_ip to_port create
  address_lem port ip small dotted =
      let a = create net port ip in
      let same_port = net.ntohs_htons port small in
      let same_ip = net.ntop_pton ip net.zero_addr dotted in
      let number : read (decimal (pos (to_port net a))) ≡ some (pos port) =
        ap (λ n. read (decimal (pos n))) same_port
        ∙ read-decimal (pos port) (omega (arith, small)) in
      (
        same_port,
        same_ip,
        ap read_ip_port (to_ip_port-whole a).0
            ∙ read-colon (to_ip net a) (decimal (pos (to_port net a))) (net.ntop_chars a.sin_addr)
            ∙ ap₂ with_port same_ip number,
      )
