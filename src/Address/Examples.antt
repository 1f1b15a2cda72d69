-- ===== src/Address/Examples.antt =====
-- The address 127.0.0.1 with port 8080. The kernel's address is a text here: inet_ntop writes 15
-- characters of it at most, with dots for colons.
use caimr.Prelude.{
  ℕ, zero, suc, ◌+◌, ◌*◌, ◌/◌, ◌%◌, ◌^◌, ◌≤◌, ◌<◌, ◌≡◌, ◌≢◌, refl, ◌∙◌, some, Bytes, [], ◌∷◌, ◌++◌,
  length, ◌==◌, ==_iff, if◌then◌else◌, arith,
}
use caimr.LogStream.{pos, decimal}
use caimr.Address.{Inet, create, to_ip, to_ip_port, to_port}
use caimr.Address.Text.{read_ip_port, address_lem, to_ip_port-whole}

abbrev swap : ℕ → ℕ
swap n = (n % 256) * 256 + (n / 256) % 256

abbrev clean_char : ℕ → ℕ
clean_char c = if c == 58 then 46 else c

abbrev clean : ℕ → Bytes → Bytes
clean zero cs = []
clean (suc n) [] = []
clean (suc n) (c ∷ cs) = clean_char c ∷ clean n cs

pub length-clean : (n : ℕ) (cs : Bytes) → length (clean n cs) ≤ n
length-clean zero cs = omega arith
length-clean (suc n) [] = omega arith
length-clean (suc n) (c ∷ cs) = omega (arith, length-clean n cs)

clean_char-dot : (c : ℕ) → clean_char c ≢ 58
clean_char-dot c = ground (arith, ==_iff c 58)

pub clean-chars : (n : ℕ) (cs xs ys : Bytes) (c : ℕ) → clean n cs ≡ xs ++ c ∷ ys → c ≢ 58
clean-chars zero cs [] ys c e = absurd cc
clean-chars zero cs (x ∷ xs) ys c e = absurd cc
clean-chars (suc n) [] [] ys c e = absurd cc
clean-chars (suc n) [] (x ∷ xs) ys c e = absurd cc
clean-chars (suc n) (d ∷ cs) [] ys c e =
    let head : clean_char d ≡ c = cc in λ h. clean_char-dot d (head ∙ h)
clean-chars (suc n) (d ∷ cs) (x ∷ xs) ys c e =
    let tail : clean n cs ≡ xs ++ c ∷ ys = cc in clean-chars n cs xs ys c tail

pub swap-swap : (n : ℕ) → n < 2 ^ 16 → swap (swap n) ≡ n
swap-swap n h = omega (arith, h)

pub swap_small : (n : ℕ) → swap n < 2 ^ 16
swap_small n = omega arith

abbrev pub net : Inet
net = record {
  InAddr = Bytes;
  zero_addr = [];
  htons = swap;
  ntohs = swap;
  inet_pton = λ ip a. ip;
  inet_ntop = clean 15;
  IsDotted = λ ip. clean 15 ip ≡ ip;
  ntohs_htons = swap-swap;
  ntohs_small = swap_small;
  ntop_length = length-clean 15;
  ntop_chars = clean-chars 15;
  ntop_pton = λ ip a e. e;
}

abbrev pub localhost : Bytes
localhost = 49 ∷ 50 ∷ 55 ∷ 46 ∷ 48 ∷ 46 ∷ 48 ∷ 46 ∷ 49 ∷ []

address_lem_example :
    (to_port net (create net 8080 localhost) ≡ 8080)
    × (to_ip net (create net 8080 localhost) ≡ localhost)
    × (read_ip_port (to_ip_port net (create net 8080 localhost)) ≡ some (localhost, pos 8080))
address_lem_example = address_lem net 8080 localhost (omega arith) refl

to_ip_port-whole_example :
    (to_ip_port net (create net 8080 localhost)
      ≡ to_ip net (create net 8080 localhost)
        ++ 58 ∷ decimal (pos (to_port net (create net 8080 localhost))))
    × (length (to_ip_port net (create net 8080 localhost)) ≤ 37)
to_ip_port-whole_example = to_ip_port-whole net (create net 8080 localhost)
