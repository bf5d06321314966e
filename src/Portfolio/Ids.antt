-- ===== src/Portfolio/Ids.antt =====
-- portfolio/Portfolio.ts: the parts of a symbol, and when two exchange order ids name one order.
use Prim.Native.Char.{code}
use cryptotradingbot.Common.{
  ℕ, ◌+◌, ◌-◌, ◌*◌, ◌≡◌, refl, Bool, true, false, ◌&&◌, ◌||◌, Option, none, some, String, leb, ◌==◌,
  str_eq, eq_iff, eq_refl, if◌then◌else◌, arith, not,
}

-- `symbol.split('/')[0]`
unfoldable pub base_of : String → String
base_of String.[] = String.[]
base_of (String.◌∷◌ c s) = if code c == b'/' then String.[] else String.◌∷◌ c (base_of s)

-- `symbol.split('/')[1]`, undefined where there is no slash: what stands between the first slash and
-- the next.
unfoldable pub quote_of : String → Option String
unfolding base_of
quote_of String.[] = none
quote_of (String.◌∷◌ c s) = if code c == b'/' then some (base_of s) else quote_of s

abbrev pub is_empty : String → Bool
is_empty String.[] = true
is_empty (String.◌∷◌ c s) = false

unfoldable pub only_digits : String → Bool
only_digits String.[] = true
only_digits (String.◌∷◌ c s) = leb b'0' (code c) && leb (code c) b'9' && only_digits s

-- `/^\d+$/.test(s)`
unfoldable pub is_number : String → Bool
unfolding only_digits
is_number s = not (is_empty s) && only_digits s

-- `BigInt(s)` of a text of digits, read on from a value.
unfoldable pub number_from : ℕ → String → ℕ
number_from n String.[] = n
number_from n (String.◌∷◌ c s) = number_from (n * 10 + (code c - b'0')) s

unfoldable pub number : String → ℕ
unfolding number_from
number s = number_from 0 s

-- Portfolio.sameExternalOrderId, of two texts.
unfoldable pub same_order : String → String → Bool
unfolding is_number number
same_order a b = str_eq a b || (is_number a && is_number b && number a == number b)

-- Portfolio.sameExternalOrderId
unfoldable pub same_external_order_id : Option String → Option String → Bool
unfolding same_order
same_external_order_id none none = true
same_external_order_id none (some b) = false
same_external_order_id (some a) none = false
same_external_order_id (some a) (some b) = same_order a b

pub same_order_refl : (a : String) → same_order a a ≡ true
unfolding same_order
same_order_refl a = rw (eq_refl a)

pub same_order_sym : (a b : String) → same_order a b ≡ same_order b a
unfolding same_order
same_order_sym a b = ground (arith, eq_iff a b, eq_iff b a)

same_order_trans :
    (a b c : String) → same_order a b ≡ true → same_order b c ≡ true → same_order a c ≡ true
unfolding same_order
same_order_trans a b c h k = ground (arith, eq_iff a b, eq_iff b c, eq_iff a c)

pub same_external_order_id_refl : (a : Option String) → same_external_order_id a a ≡ true
unfolding same_external_order_id
same_external_order_id_refl none = refl
same_external_order_id_refl (some a) = same_order_refl a

pub same_external_order_id_sym :
    (a b : Option String) → same_external_order_id a b ≡ same_external_order_id b a
unfolding same_external_order_id
same_external_order_id_sym none none = refl
same_external_order_id_sym none (some b) = refl
same_external_order_id_sym (some a) none = refl
same_external_order_id_sym (some a) (some b) = same_order_sym a b

pub same_external_order_id_trans :
    (a b c : Option String)
    → same_external_order_id a b ≡ true
    → same_external_order_id b c ≡ true
    → same_external_order_id a c ≡ true
unfolding same_external_order_id
same_external_order_id_trans none none c h k = k
same_external_order_id_trans none (some b) c h k = cc
same_external_order_id_trans (some a) none c h k = cc
same_external_order_id_trans (some a) (some b) none h k = k
same_external_order_id_trans (some a) (some b) (some c) h k = same_order_trans a b c h k
