-- ===== src/Http/Method.antt =====
-- The request methods and getMethod of src/http/http-common.cpp.
use ch_cpp_utils.Base.{
  ℕ, ◌+◌, ◌≡◌, ◌↔◌, Bool, true, Str, codes, KeyEq, nat_beq, nat_beq_iff, arith, ◌-◌, if◌then◌else◌,
  refl, sym, ap, ◌∙◌,
}

-- evhttp_cmd_type; `unknown` stands for a value that getMethod has no case for
pub data Method : Type 0 where
  get post head put delete options trace connect patch : Method
  unknown : ℕ → Method

unfoldable pub get_method : Method → Str
get_method get = codes "GET"
get_method post = codes "POST"
get_method head = codes "HEAD"
get_method put = codes "PUT"
get_method delete = codes "DELETE"
get_method options = codes "OPTIONS"
get_method trace = codes "TRACE"
get_method connect = codes "CONNECT"
get_method patch = codes "PATCH"
get_method (unknown n) = codes "unknown"

-- The key of a method in a map over int.
abbrev pub method_id : Method → ℕ
method_id get = 0
method_id post = 1
method_id head = 2
method_id put = 3
method_id delete = 4
method_id options = 5
method_id trace = 6
method_id connect = 7
method_id patch = 8
method_id (unknown n) = n + 9

-- The method of an int, which gives back every method from its key.
abbrev method_of : ℕ → Method
method_of n =
    if nat_beq n 0
    then get
    else if nat_beq n 1
    then post
    else if nat_beq n 2
    then head
    else if nat_beq n 3
    then put
    else if nat_beq n 4
    then delete
    else if nat_beq n 5
    then options
    else if nat_beq n 6
    then trace
    else if nat_beq n 7
    then connect
    else if nat_beq n 8
    then patch
    else unknown (n - 9)

method_of-method_id : (m : Method) → method_of (method_id m) ≡ m
method_of-method_id get = refl
method_of-method_id (unknown n) = ground arith
method_of-method_id _ = refl

abbrev pub method_beq : Method → Method → Bool
method_beq a b = nat_beq (method_id a) (method_id b)

pub method_beq_iff : (a b : Method) → (method_beq a b ≡ true) ↔ (a ≡ b)
method_beq_iff a b = (
  λ h.
      sym (method_of-method_id a)
      ∙ ap method_of ((nat_beq_iff (method_id a) (method_id b)).0 h)
      ∙ method_of-method_id b,
  λ e. (nat_beq_iff (method_id a) (method_id b)).1 (ap method_id e),
)

instance abbrev pub method_eq : KeyEq Method
method_eq = record { eqb = method_beq; eqb_iff = method_beq_iff }
