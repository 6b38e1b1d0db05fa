-- ===== src/Sip/Digest.antt =====
-- cmd/gateway/main.go: digest authentication. MD5, SHA-256 in hexadecimal and the client nonce are
-- parameters.
use talk_telephony_gateway_p.Base.{
  ℕ, ◌≡◌, ◌⊎◌, refl, Bool, true, false, not, ◌&&◌, ◌||◌, List, [], ◌∷◌, ◌++◌, Option, none, some,
  ltb, ◌==◌, if◌then◌else◌, Result, ok, err, ◌>>=◌, any, arith, drop, take, length, inl, inr,
}
use talk_telephony_gateway_p.Text.{
  Text, codes, text_eq, is_empty, equal_fold, to_lower, to_upper, trim_space, cut, split, join,
  ends_with_byte,
}
use talk_telephony_gateway_p.Dict.{lookup, insert}

pub record DigestChallenge : Type 0 where
  pub realm : Text
  pub nonce : Text
  pub algorithm : Text
  pub qop : Text
  pub opaque_value : Text

pub data DigestError : Type 0 where
  bad_scheme no_realm_or_nonce bad_qop bad_algorithm no_random : DigestError

-- The loop over the bytes: the fields between the commas that are outside quotes.
unfoldable pub quoted_fields : Bool → Text → Text × List Text
quoted_fields in_quote [] = ([], [])
quoted_fields in_quote (c ∷ s) =
    let (a, more) = quoted_fields (not in_quote) s in
    let (b, bs) = quoted_fields in_quote s in
    if c == b'"'
    then (c ∷ a, more)
    else if c == b',' && not in_quote
    then ([], b ∷ bs)
    else (c ∷ b, bs)

unfoldable pub without_last : Text → Text
without_last [] = []
without_last (c ∷ []) = []
without_last (c ∷ d ∷ s) = c ∷ without_last (d ∷ s)

-- A value without the quotes around it.
unfoldable pub unquote : Text → Text
unfolding without_last ends_with_byte
unquote (c ∷ d ∷ s) =
    if c == b'"' && ends_with_byte b'"' (d ∷ s) then without_last (d ∷ s) else c ∷ d ∷ s
unquote s = s

abbrev Params : Type 0
Params = List (Text × Text)

unfoldable pub add_param : Text → Params → Params
unfolding cut trim_space to_lower insert
add_param field params = elim (cut b'=' (trim_space field)) [
  | none ↦ params
  | some (k, v) ↦ insert (to_lower (trim_space k)) (unquote (trim_space v)) params
]

unfoldable pub add_params : List Text → Params → Params
add_params [] params = params
add_params (f ∷ fs) params = add_params fs (add_param f params)

unfoldable pub parse_auth_params : Text → Params
unfolding add_params
parse_auth_params s = let (first, others) = quoted_fields false s in add_params (first ∷ others) []

-- `params[k]`, which is empty where there is none.
unfoldable pub param : Text → Params → Text
unfolding lookup
param k params = elim (lookup k params) [ none ↦ [] | some v ↦ v ]

unfoldable pub offers_auth : Text → Bool
unfolding split trim_space equal_fold
offers_auth qops =
    let (first, others) = split b',' qops in
    any (λ q. equal_fold (trim_space q) (codes "auth")) (first ∷ others)

-- The challenge of the parameters.
unfoldable pub challenge_of : Params → Result DigestError DigestChallenge
challenge_of params =
    let realm_value = param (codes "realm") params in
    let nonce_value = param (codes "nonce") params in
    let named = param (codes "algorithm") params in
    let qops = param (codes "qop") params in
    if is_empty realm_value || is_empty nonce_value
    then err no_realm_or_nonce
    else if not (is_empty qops) && not (offers_auth qops)
    then err bad_qop
    else ok (record {
      realm = realm_value;
      nonce = nonce_value;
      algorithm = if is_empty named then codes "MD5" else named;
      qop = if is_empty qops then [] else codes "auth";
      opaque_value = param (codes "opaque") params;
    })

unfoldable pub parse_digest_challenge : Text → Result DigestError DigestChallenge
unfolding trim_space equal_fold
parse_digest_challenge header =
    let raw = trim_space header in
    if ltb (length raw) 6 || not (equal_fold (take 6 raw) (codes "Digest"))
    then err bad_scheme
    else challenge_of (parse_auth_params (trim_space (drop 6 raw)))

abbrev pub quoted : Text → Text → Text
quoted name value = name ++ (b'=' ∷ b'"' ∷ (value ++ b'"' ∷ []))

abbrev nonce_count : Text
nonce_count = codes "00000001"

unfoldable pub colon : List Text → Text
unfolding join
colon = join (codes ":")

module _ (md5_hex sha256_hex : Text → Text) where
  -- `hash`
  unfoldable pub digest_hash : Text → Text → Result DigestError Text
  unfolding to_upper text_eq
  digest_hash algorithm s =
      if text_eq (to_upper algorithm) (codes "MD5")
      then ok (md5_hex s)
      else if text_eq (to_upper algorithm) (codes "SHA-256")
      then ok (sha256_hex s)
      else err bad_algorithm

  -- The parts of the header's value.
  unfoldable pub authorization_parts :
      DigestChallenge → (username uri response cnonce : Text) → List Text
  authorization_parts c username uri response cnonce =
      quoted (codes "username") username
      ∷ quoted (codes "realm") c.realm
      ∷ quoted (codes "nonce") c.nonce
      ∷ quoted (codes "uri") uri
      ∷ quoted (codes "response") response
      ∷ (codes "algorithm=" ++ c.algorithm)
      ∷ ((if is_empty c.opaque_value then [] else quoted (codes "opaque") c.opaque_value ∷ [])
          ++ (if text_eq c.qop (codes "auth")
              then codes "qop=auth"
                ∷ (codes "nc=" ++ nonce_count)
                ∷ quoted (codes "cnonce") cnonce
                ∷ []
              else []))

  -- The nonce, if the random source gives one, is the last argument.
  unfoldable pub build_digest_authorization :
      DigestChallenge
      → (username password method uri : Text) → Option Text
      → Result DigestError Text
  build_digest_authorization c username password method uri none = err no_random
  build_digest_authorization c username password method uri (some cnonce) =
      digest_hash c.algorithm (colon (username ∷ c.realm ∷ password ∷ [])) >>= λ ha1.
      digest_hash c.algorithm (colon (method ∷ uri ∷ [])) >>= λ ha2.
      digest_hash c.algorithm (
        if text_eq c.qop (codes "auth")
        then colon (ha1 ∷ c.nonce ∷ nonce_count ∷ cnonce ∷ codes "auth" ∷ ha2 ∷ [])
        else colon (ha1 ∷ c.nonce ∷ ha2 ∷ []))
      >>= λ response. ok (
          codes "Digest " ++ join (codes ", ") (authorization_parts c username uri response cnonce))

-- A challenge that can be answered: it has a realm, a nonce and an algorithm, and asks for no
-- protection or for "auth".
pub IsUsable : DigestChallenge → Type 0
IsUsable c =
    (is_empty c.realm ≡ false)
    × (is_empty c.nonce ≡ false)
    × (is_empty c.algorithm ≡ false)
    × ((c.qop ≡ []) ⊎ (c.qop ≡ codes "auth"))

default_algorithm : (t : Text) → is_empty (if is_empty t then codes "MD5" else t) ≡ false
default_algorithm [] = refl
default_algorithm (c ∷ s) = refl

qop_values :
    (b : Bool)
    → ((if b then [] else codes "auth") ≡ []) ⊎ ((if b then [] else codes "auth") ≡ codes "auth")
qop_values true = inl refl
qop_values false = inr refl

challenge_of-IsUsable :
    (params : Params) (c : DigestChallenge) → challenge_of params ≡ ok c → IsUsable c
unfolding challenge_of IsUsable
challenge_of-IsUsable params c h = ground (
  arith,
  h,
  default_algorithm (param (codes "algorithm") params),
  qop_values (is_empty (param (codes "qop") params)),
)

-- A challenge that is accepted can be answered.
pub parse_digest_challenge-IsUsable :
    (header : Text) (c : DigestChallenge) → parse_digest_challenge header ≡ ok c → IsUsable c
unfolding parse_digest_challenge
parse_digest_challenge-IsUsable header c h = ground (
  arith,
  h,
  challenge_of-IsUsable (parse_auth_params (trim_space (drop 6 (trim_space header)))) c,
)

join_fields : Text × List Text → Text
join_fields (first, others) = join (b',' ∷ []) (first ∷ others)

join-cons :
    (c : ℕ) (first : Text) (others : List Text)
    → join_fields (c ∷ first, others) ≡ c ∷ join_fields (first, others)
unfolding join_fields join
join-cons c first [] = refl
join-cons c first (o ∷ os) = refl

join-comma : (fs : Text × List Text) → join_fields ([], fs.0 ∷ fs.1) ≡ b',' ∷ join_fields fs
unfolding join_fields join
join-comma (first, others) = refl

-- The fields of a challenge are the text between commas: joined by commas they give it back.
pub join-quoted_fields :
    (in_quote : Bool) (s : Text)
    → join (b',' ∷ []) ((quoted_fields in_quote s).0 ∷ (quoted_fields in_quote s).1) ≡ s
unfolding join_fields join quoted_fields
join-quoted_fields in_quote [] = refl
join-quoted_fields in_quote (c ∷ s) = ground (
  arith,
  join-quoted_fields in_quote s,
  join-quoted_fields (not in_quote) s,
  join-cons c (quoted_fields in_quote s).0 (quoted_fields in_quote s).1,
  join-cons c (quoted_fields (not in_quote) s).0 (quoted_fields (not in_quote) s).1,
  join-comma (quoted_fields in_quote s),
)
