-- ===== src/Session/Token.antt =====
-- What the decoding of a token promises: the text for `atob`, and a token that has a role.
use Prim.Native.String.{String}
use text.Mathlib.Text.{◌==◌ as str_eq}
use text.Mathlib.TextEquality.{eq_iff}
use trading_monitoring_dashb.Base.{
  ℕ, ◌+◌, ◌-◌, ◌*◌, ◌/◌, ◌%◌, false, Option, none, some, [], ◌∷◌, ◌++◌, map, ◌≡◌, ◌≢◌, refl, sym,
  ap, ◌∙◌, arith, inl, inr, Bool-cases, All, length, length-append, take, ◌≤◌, zero, suc,
}
use trading_monitoring_dashb.Base.Text.{Text}
use trading_monitoring_dashb.Js.{Js, undefined, null, bool, num, infinite, str, arr, obj}
use trading_monitoring_dashb.Session.{
  UserRole, visitor, member, admin, TokenPlatform, plain_code, repeat, to_base64, is_visitor,
  decode_access_token, map_token_role, payload_role, split_dots,
}

-- No sign that the alphabet of URLs has and that of `atob` lacks.
abbrev pub IsPlain : ℕ → Type 0
IsPlain c = (c ≢ 45) × (c ≢ 95)

plain_code-IsPlain : (c : ℕ) → IsPlain (plain_code c)
plain_code-IsPlain c = ground arith

length-map : (f : ℕ → ℕ) (cs : Text) → length (map f cs) ≡ length cs
length-map f [] = refl
length-map f (c ∷ cs) = ap suc (length-map f cs)

length-repeat : (n c : ℕ) → length (repeat n c) ≡ n
unfolding repeat
length-repeat zero c = refl
length-repeat (suc n) c = ap suc (length-repeat n c)

All-append : (P : ℕ → Type 0) (xs ys : Text) → All P xs → All P ys → All P (xs ++ ys)
All-append P [] ys h k = k
All-append P (x ∷ xs) ys h k = (h.0, All-append P xs ys h.1 k)

map-IsPlain : (cs : Text) → All IsPlain (map plain_code cs)
map-IsPlain [] = tt
map-IsPlain (c ∷ cs) = (plain_code-IsPlain c, map-IsPlain cs)

repeat-IsPlain : (n : ℕ) → All IsPlain (repeat n 61)
unfolding repeat
repeat-IsPlain zero = tt
repeat-IsPlain (suc n) = (ground arith, repeat-IsPlain n)

take-append : (xs ys : Text) → take (length xs) (xs ++ ys) ≡ xs
take-append [] ys = refl
take-append (x ∷ xs) ys = ap (λ t. x ∷ t) (take-append xs ys)

-- What the code gives to `atob`: its length is a multiple of four and at most three more than that of
-- the part, it has no sign of the alphabet of URLs, and it starts with the translated part.
pub to_base64-IsPadded :
    (value : Text)
    → (length (to_base64 value) % 4 ≡ 0)
      × (length value ≤ length (to_base64 value))
      × (length (to_base64 value) ≤ length value + 3)
      × All IsPlain (to_base64 value)
      × (take (length value) (to_base64 value) ≡ map plain_code value)
unfolding to_base64
to_base64-IsPadded value =
    let n = length value in
    let same : length (map plain_code value) ≡ n = length-map plain_code value in
    let padding = (length (map plain_code value) + 3) / 4 * 4 - length (map plain_code value) in
    let long = length-append (map plain_code value) (repeat padding 61) in
    let pad = length-repeat padding 61 in
    (
      omega (arith, same, long, pad),
      omega (arith, same, long, pad),
      omega (arith, same, long, pad),
      All-append IsPlain (map plain_code value) (repeat padding 61) (map-IsPlain value)
          (repeat-IsPlain padding),
      ap (λ k. take k (map plain_code value ++ repeat padding 61)) (sym same)
          ∙ take-append (map plain_code value) (repeat padding 61),
    )

map_token_role-known :
    (v : Js) (role : UserRole) → map_token_role v ≡ some role → is_visitor role ≡ false
unfolding map_token_role
map_token_role-known (str s) visitor e = ground arith
map_token_role-known v member e = refl
map_token_role-known v admin e = refl
map_token_role-known undefined visitor e = cc
map_token_role-known null visitor e = cc
map_token_role-known (bool b) visitor e = cc
map_token_role-known (num b) visitor e = cc
map_token_role-known (infinite b) visitor e = cc
map_token_role-known (arr r b) visitor e = cc
map_token_role-known (obj r b) visitor e = cc

payload_role-known :
    (p : Option Js) (role : UserRole) → payload_role p ≡ some role → is_visitor role ≡ false
payload_role-known none role e = cc
payload_role-known (some undefined) role e = cc
payload_role-known (some null) role e = cc
payload_role-known (some (bool b)) role e = map_token_role-known _ role e
payload_role-known (some (num b)) role e = map_token_role-known _ role e
payload_role-known (some (infinite b)) role e = map_token_role-known _ role e
payload_role-known (some (str b)) role e = map_token_role-known _ role e
payload_role-known (some (arr r b)) role e = map_token_role-known _ role e
payload_role-known (some (obj r b)) role e = map_token_role-known _ role e

decode-empty : (platform : TokenPlatform) → decode_access_token platform "" ≡ none
unfolding decode_access_token split_dots
decode-empty platform = refl

-- A token that has a role is not empty, and the role is not that of a visitor.
pub role_of_token :
    (platform : TokenPlatform) (token : String) (role : UserRole)
    → payload_role (decode_access_token platform token) ≡ some role
    → (str_eq token "" ≡ false) × (is_visitor role ≡ false)
role_of_token platform token role e = (
  elim (Bool-cases (str_eq token "")) [
    | inl f ↦
        let same : token ≡ "" = (eq_iff token "").0 f in
        absurd (
          clash (
            sym (
              ap (λ t. payload_role (decode_access_token platform t)) same
              ∙ ap payload_role (decode-empty platform))
            ∙ e))
    | inr f ↦ f
  ],
  payload_role-known (decode_access_token platform token) role e,
)
  where
    clash : none ≡ some role → ⊥
    clash c = cc
