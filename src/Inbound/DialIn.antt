-- ===== src/Inbound/DialIn.antt =====
-- cmd/gateway/inbound.go: `directDialIn`, which asks Nextcloud for the room of a call. The keyed
-- hash, the random source and the exchange of the request for a response are parameters; a
-- response comes with what `json.Unmarshal` reads from its body.
use talk_telephony_gateway_p.Base.{
  ℕ, Bool, false, ◌||◌, ◌++◌, Option, none, some, ltb, leb, ◌==◌, if◌then◌else◌, Result, ok, err,
}
use talk_telephony_gateway_p.Base.Int.{ℤ, pos, negsuc}
use talk_telephony_gateway_p.Text.{Text, codes, trim_right}

-- `directDialInRoom`
pub record Room : Type 0 where
  pub id : ℤ
  pub token : Text
  pub actor_id : Text
  pub actor_type : Text

-- `ocs.data`, with the status code of `ocs.meta`.
pub record Envelope : Type 0 where
  pub room : Room
  pub meta_status : ℤ

pub record Response : Type 0 where
  pub status : ℕ
  pub decoded : Option Envelope

pub record Request : Type 0 where
  pub endpoint : Text
  pub random : Text
  pub checksum : Text
  pub phone_number : Text
  pub caller : Text

pub data DialInError : Type 0 where
  no_random no_response not_found unauthorized bad_status bad_body refused no_room_id : DialInError

-- `exchange` is none where the request cannot be made or sent.
pub record Nextcloud : Type 0 where
  pub url : Text
  pub secret : Text
  pub hmac_hex : Text → Text → Text
  pub random_hex : Option Text
  pub exchange : Request → Option Response

abbrev is_refused : ℤ → Bool
is_refused (pos n) = leb 400 n
is_refused (negsuc n) = false

abbrev is_zero : ℤ → Bool
is_zero (pos n) = n == 0
is_zero (negsuc n) = false

unfoldable pub check_envelope : Envelope → Result DialInError Room
check_envelope e =
    if is_refused e.meta_status
    then err refused
    else if is_zero e.room.id
    then err no_room_id
    else ok e.room

unfoldable pub check_response : Response → Result DialInError Room
check_response r =
    if r.status == 404
    then err not_found
    else if r.status == 401
    then err unauthorized
    else if ltb r.status 200 || leb 300 r.status
    then err bad_status
    else elim r.decoded [ none ↦ err bad_body | some e ↦ check_envelope e ]

module _ (nextcloud : Nextcloud) where
  unfoldable pub dial_in_request : Text → Text → Text → Request
  unfolding trim_right
  dial_in_request rnd phone_number caller = record {
    endpoint =
        trim_right (λ c. c == b'/') nextcloud.url
        ++ codes "/ocs/v2.php/apps/spreed/api/v4/room/direct-dial-in?format=json";
    random = rnd;
    checksum = nextcloud.hmac_hex nextcloud.secret (rnd ++ phone_number);
    phone_number = phone_number;
    caller = caller;
  }

  unfoldable pub direct_dial_in : Text → Text → Result DialInError Room
  direct_dial_in phone_number caller = elim nextcloud.random_hex [
    | none ↦ err no_random
    | some rnd ↦ elim (nextcloud.exchange (dial_in_request rnd phone_number caller)) [
      | none ↦ err no_response
      | some r ↦ check_response r
    ]
  ]
