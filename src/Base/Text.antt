-- ===== src/Base/Text.antt =====
-- std::string as the list of its bytes: comparison, find, rfind and substr.
use Prim.Native.Nat.{ℕ, suc, ◌+◌}
use Prim.Native.Char.{code}
use Prim.Native.String.{String}
use mathlib.Core.Path.{◌≡◌, refl}
use mathlib.Core.Logic.{◌↔◌, ◌≢◌}
use mathlib.Core.Bool.{Bool, true, false, ◌&&◌}
use mathlib.Core.Option
use mathlib.Core.Option.{Option, none, some}
use mathlib.Core.List.{List, [], ◌∷◌, ◌++◌}
use native.Mathlib.Omega.{arith}
use ch_cpp_utils.Base.Tests.{nat_beq, nat_beq_iff, KeyEq, if◌then◌else◌}
use ch_cpp_utils.Base.Lists.{length, take, drop, All}

abbrev pub Str : Type 0
Str = List ℕ

-- A literal of the source, which is ASCII.
abbrev pub codes : String → Str
codes String.[] = []
codes (String.◌∷◌ c s) = code c ∷ codes s

abbrev pub str_beq : Str → Str → Bool
str_beq [] [] = true
str_beq (a ∷ s) (b ∷ t) = nat_beq a b && str_beq s t
str_beq _ _ = false

pub str_beq_iff : (s t : Str) → (str_beq s t ≡ true) ↔ (s ≡ t)
str_beq_iff [] [] = ground arith
str_beq_iff [] (b ∷ t) = ground arith
str_beq_iff (a ∷ s) [] = ground arith
str_beq_iff (a ∷ s) (b ∷ t) = ground (arith, nat_beq_iff a b, str_beq_iff s t)

pub str_beq_refl : (s : Str) → str_beq s s ≡ true
str_beq_refl s = (str_beq_iff s s).1 refl

instance abbrev pub str_eq : KeyEq Str
str_eq = record { eqb = str_beq; eqb_iff = str_beq_iff }

-- The position of the first byte `c`; `none` is npos.
abbrev pub index_of : ℕ → Str → Option ℕ
index_of c [] = none
index_of c (b ∷ s) = if nat_beq b c then some 0 else Option.map suc (index_of c s)

-- s.find(c, from)
unfoldable pub find : Str → ℕ → ℕ → Option ℕ
find s c from = Option.map (λ i. from + i) (index_of c (drop from s))

-- s.substr(from, len), whose length is cut at the end of the text.
unfoldable pub substr : Str → ℕ → ℕ → Str
substr s from len = take len (drop from s)

-- s.rfind(c), s.find_last_of(c)
unfoldable pub rfind : Str → ℕ → Option ℕ
rfind [] c = none
rfind (b ∷ s) c = elim (rfind s c) [
  | some i ↦ some (suc i)
  | none ↦ if nat_beq b c then some 0 else none
]

pub rfind_of_plain : (c : ℕ) (t : Str) → All (λ b. b ≢ c) t → rfind t c ≡ none
unfolding rfind
rfind_of_plain c [] h = refl
rfind_of_plain c (b ∷ t) (h, hs) = ground (arith, rfind_of_plain c t hs)

-- The last `c` stands where no other follows.
pub rfind-append : (c : ℕ) (s t : Str) → All (λ b. b ≢ c) t → rfind (s ++ c ∷ t) c ≡ some (length s)
unfolding rfind
rfind-append c [] t h = ground (arith, rfind_of_plain c t h)
rfind-append c (b ∷ s) t h = ground (arith, rfind-append c s t h)
