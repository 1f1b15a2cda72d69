-- ===== src/Events.antt =====
-- The epoll event masks that include/net/chan.h and src/net/chan.cpp work with. A mask is an int
-- there; here it is the record of the five bits that the code names, and `mask` is the int.
use Prim.Native.Nat.{bit_or, bit_and}
use caimr.Prelude.{ℕ, ◌+◌, ◌-◌, ◌≡◌, refl, arith, Bool, true, false, not, ◌&&◌, ◌||◌, ◌==◌, ==_iff}

pub record Events : Type 0 where
  pub epollin : Bool
  pub epollpri : Bool
  pub epollout : Bool
  pub epollerr : Bool
  pub epollhup : Bool

abbrev pub none_event : Events
none_event = record {
  epollin = false;
  epollpri = false;
  epollout = false;
  epollerr = false;
  epollhup = false;
}

abbrev pub read_event : Events
read_event = record none_event { epollin = true; epollpri = true }

abbrev pub write_event : Events
write_event = record none_event { epollout = true }

-- `a | b`
abbrev pub union : Events → Events → Events
union a b = record {
  epollin = a.epollin || b.epollin;
  epollpri = a.epollpri || b.epollpri;
  epollout = a.epollout || b.epollout;
  epollerr = a.epollerr || b.epollerr;
  epollhup = a.epollhup || b.epollhup;
}

-- `a & ~b`
abbrev pub without : Events → Events → Events
without a b = record {
  epollin = a.epollin && not b.epollin;
  epollpri = a.epollpri && not b.epollpri;
  epollout = a.epollout && not b.epollout;
  epollerr = a.epollerr && not b.epollerr;
  epollhup = a.epollhup && not b.epollhup;
}

-- `(a & b) != 0`
abbrev pub meets : Events → Events → Bool
meets a b =
    (a.epollin && b.epollin)
    || (a.epollpri && b.epollpri)
    || (a.epollout && b.epollout)
    || (a.epollerr && b.epollerr)
    || (a.epollhup && b.epollhup)

-- `a == 0`
abbrev pub is_empty : Events → Bool
is_empty a = not (a.epollin || a.epollpri || a.epollout || a.epollerr || a.epollhup)

abbrev bit : Bool → ℕ → ℕ
bit true weight = weight
bit false weight = 0

-- The int that a record of bits stands for, with the values of sys/epoll.h.
pub mask : Events → ℕ
mask a =
    bit a.epollin 1 + bit a.epollpri 2 + bit a.epollout 4 + bit a.epollerr 8 + bit a.epollhup 16

-- A test that both truth values pass.
abbrev both : (Bool → Bool) → Bool
both q = q true && q false

both_sound : (q : Bool → Bool) (b : Bool) → both q ≡ true → q b ≡ true
both_sound q true h = ground arith
both_sound q false h = ground arith

abbrev of_bits : Bool → Bool → Bool → Bool → Bool → Events
of_bits i r o e h = record { epollin = i; epollpri = r; epollout = o; epollerr = e; epollhup = h }

-- A test that every record of bits passes.
all_events : (Events → Bool) → Bool
all_events p = both λ i. both λ r. both λ o. both λ e. both λ h. p (of_bits i r o e h)

all_events_sound : (p : Events → Bool) (a : Events) → all_events p ≡ true → p a ≡ true
unfolding all_events
all_events_sound p a t =
    let i = a.epollin in
    let r = a.epollpri in
    let o = a.epollout in
    let e = a.epollerr in
    let tr = both_sound (λ i. both λ r. both λ o. both λ e. both λ h. p (of_bits i r o e h)) i t in
    let to = both_sound (λ r. both λ o. both λ e. both λ h. p (of_bits i r o e h)) r tr in
    let te = both_sound (λ o. both λ e. both λ h. p (of_bits i r o e h)) o to in
    let th = both_sound (λ e. both λ h. p (of_bits i r o e h)) e te in
    both_sound (λ h. p (of_bits i r o e h)) a.epollhup th

abbrev same : Bool → Bool → Bool
same true b = b
same false b = not b

same→eq : (a b : Bool) → same a b ≡ true → a ≡ b
same→eq a b h = ground arith

abbrev union_agrees : Events → Events → Bool
union_agrees a b = mask (union a b) == bit_or (mask a) (mask b)

abbrev without_agrees : Events → Events → Bool
without_agrees a b = mask (without a b) == bit_and (mask a) (31 - mask b)

abbrev meets_agrees : Events → Events → Bool
meets_agrees a b = same (meets a b) (not (bit_and (mask a) (mask b) == 0))

agree_table :
    (all_events (λ a. all_events (union_agrees a)) ≡ true)
    × (all_events (λ a. all_events (without_agrees a)) ≡ true)
    × (all_events (λ a. all_events (meets_agrees a)) ≡ true)
unfolding all_events mask
agree_table = (refl, refl, refl)

pairwise :
    (p : Events → Events → Bool) (a b : Events)
    → all_events (λ a. all_events (p a)) ≡ true
    → p a b ≡ true
pairwise p a b t = all_events_sound (p a) b (all_events_sound (λ a. all_events (p a)) a t)

-- The three operations on records of bits are those on the ints: `|`, `& ~` (over the five bits)
-- and the test of `&` against zero.
pub mask-ops :
    (a b : Events)
    → (mask (union a b) ≡ bit_or (mask a) (mask b))
      × (mask (without a b) ≡ bit_and (mask a) (31 - mask b))
      × (meets a b ≡ not (bit_and (mask a) (mask b) == 0))
mask-ops a b = (
  (==_iff _ _).0 (pairwise union_agrees a b agree_table.0),
  (==_iff _ _).0 (pairwise without_agrees a b agree_table.1),
  same→eq _ _ (pairwise meets_agrees a b agree_table.2),
)
