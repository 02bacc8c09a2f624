-- ===== src/Tests/Codec.antt =====
-- A codec to run with: a text is the list of its code points, and only the empty dictionary has JSON.
use executor_service.Common.{
  ℕ, ◌≡◌, refl, String, List, [], ◌∷◌, Option, none, some, ◌==◌, ◌&&◌, if◌then◌else◌,
}
use Prim.Native.Nat.{Ordering, compare}
use Prim.Native.Char.{char, code, IsLt, IsScalar}
use Prim.Native.String.{[] as []ˢ, ◌∷◌ as ◌∷ˢ◌}
use executor_service.Errors.{type_error}
use executor_service.Action.{Outcome, ok, raised}
use executor_service.Schemas.Value.{Value, str_value, dict_value, Fields, empty, field}
use executor_service.Runtime.Frames.{Codec}

abbrev BothLess : Ordering → Ordering → Type 0
BothLess Ordering.lt o = IsLt o
BothLess Ordering.eq _ = ⊥
BothLess Ordering.gt _ = ⊥

abbrev LessOrBoth : Ordering → Ordering → Ordering → Type 0
LessOrBoth Ordering.lt _ _ = Unit
LessOrBoth Ordering.eq o p = BothLess o p
LessOrBoth Ordering.gt o p = BothLess o p

abbrev less : (o : Ordering) → Option (IsLt o)
less Ordering.lt = some tt
less Ordering.eq = none
less Ordering.gt = none

abbrev both_less : (o p : Ordering) → Option (BothLess o p)
both_less Ordering.lt p = less p
both_less Ordering.eq _ = none
both_less Ordering.gt _ = none

abbrev pick : (o p q : Ordering) → Option (LessOrBoth o p q)
pick Ordering.lt _ _ = some tt
pick Ordering.eq p q = both_less p q
pick Ordering.gt p q = both_less p q

pick-scalar : (o p q : Ordering) (h : LessOrBoth o p q) → pick o p q ≡ some h
pick-scalar Ordering.lt p q h = refl
pick-scalar Ordering.eq Ordering.lt Ordering.lt h = refl
pick-scalar Ordering.eq Ordering.lt Ordering.eq h = elim h [ ]
pick-scalar Ordering.eq Ordering.lt Ordering.gt h = elim h [ ]
pick-scalar Ordering.eq Ordering.eq q h = elim h [ ]
pick-scalar Ordering.eq Ordering.gt q h = elim h [ ]
pick-scalar Ordering.gt Ordering.lt Ordering.lt h = refl
pick-scalar Ordering.gt Ordering.lt Ordering.eq h = elim h [ ]
pick-scalar Ordering.gt Ordering.lt Ordering.gt h = elim h [ ]
pick-scalar Ordering.gt Ordering.eq q h = elim h [ ]
pick-scalar Ordering.gt Ordering.gt q h = elim h [ ]

abbrev scalar : (n : ℕ) → Option (IsScalar n)
scalar n = pick (compare n 55296) (compare 57343 n) (compare n 1114112)

abbrev with_char : (n : ℕ) → Option (IsScalar n) → Option String → Option String
with_char n (some p) (some s) = some (char n p ∷ˢ s)
with_char n _ _ = none

unfoldable pub encode : String → List ℕ
encode []ˢ = []
encode (c ∷ˢ s) = code c ∷ encode s

unfoldable pub decode : List ℕ → Option String
decode [] = some ""
decode (n ∷ ns) = with_char n (scalar n) (decode ns)

pub decode-encode : (s : String) → decode (encode s) ≡ some s
unfolding encode decode
decode-encode []ˢ = refl
decode-encode (char n p ∷ˢ s) = rw (pick-scalar _ _ _ p, decode-encode s)

abbrev pub dumps : Value → Outcome (List ℕ)
dumps (dict_value empty) = ok (123 ∷ 125 ∷ [])
dumps _ = raised (type_error "not JSON serializable")

abbrev pub loads : List ℕ → Option Value
loads (n ∷ k ∷ []) = if n == 123 && k == 125 then some (dict_value empty) else none
loads _ = none

pub loads-dumps :
    (fields : Fields) (bytes : List ℕ)
    → dumps (dict_value fields) ≡ ok bytes
    → loads bytes ≡ some (dict_value fields)
loads-dumps empty bytes h = let same : 123 ∷ 125 ∷ [] ≡ bytes = cc in rw (← same)
loads-dumps (field k v fields) bytes h = cc

abbrev pub str : Value → String
str (str_value s) = s
str _ = "?"

abbrev pub codec : Codec
codec = record {
  str = str;
  encode = encode;
  decode = decode;
  dumps = dumps;
  loads = loads;
  decode-encode = decode-encode;
  loads-dumps = loads-dumps;
}
