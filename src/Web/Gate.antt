-- ===== src/Web/Gate.antt =====
-- crates/nxfr-web/src/lib.rs: who may use a share: `is_valid_token`, `respond_to_request`, and in
-- `handle_connection` the check of blocked addresses, /api/request and /auth. A token is its bytes, an
-- address a number, and a time a number of nanoseconds; the tokens that `generate_token` makes are arguments.
use nxfr.Prelude.{
  ℕ, ◌+◌, ◌-◌, ◌*◌, ◌%◌, ◌^◌, List, [], ◌∷◌, Option, none, some, Bool, true, false, not, ◌&&◌, ltb,
  leb, ◌==◌, list_eq, if◌then◌else◌, any, Result, ok, err,
}

pub data RequestStatus : Type 0 where
  pending accepted rejected : RequestStatus

pub record PendingRequest : Type 0 where
  pub session_id : List ℕ
  pub ip : ℕ
  pub timestamp : ℕ
  pub status : RequestStatus
  pub session_token : Option (List ℕ)

-- `failed_attempts` has an address with how often it failed and when it did last. A key of
-- `pending_requests` is the session id of its request.
pub record Server : Type 0 where
  pub token : List ℕ
  pub pin : Option (List ℕ)
  pub auto_accept : Bool
  pub failed_attempts : List (ℕ × (ℕ × ℕ))
  pub pending_requests : List PendingRequest

abbrev pub is_some_token : List ℕ → Option (List ℕ) → Bool
is_some_token token none = false
is_some_token token (some t) = list_eq t token

abbrev pub is_accepted : RequestStatus → Bool
is_accepted accepted = true
is_accepted _ = false

abbrev pub is_pending : RequestStatus → Bool
is_pending pending = true
is_pending _ = false

abbrev pub grants : List ℕ → PendingRequest → Bool
grants token r = is_accepted r.status && is_some_token token r.session_token

unfoldable pub is_valid_token : List ℕ → Server → Bool
is_valid_token token s =
    if list_eq s.token token
    then true
    else if is_some_token token s.pin
    then true
    else any (grants token) s.pending_requests

unfoldable pub insert_request : PendingRequest → List PendingRequest → List PendingRequest
insert_request req [] = req ∷ []
insert_request req (r ∷ rs) =
    let rest = insert_request req rs in
    if list_eq r.session_id req.session_id then req ∷ rs else r ∷ rest

unfoldable pub find_request : List ℕ → List PendingRequest → Option PendingRequest
find_request id [] = none
find_request id (r ∷ rs) =
    let later = find_request id rs in if list_eq r.session_id id then some r else later

pub data RespondError : Type 0 where
  already_answered : RespondError
  no_such_request : RespondError

abbrev pub answered : Bool → List ℕ → PendingRequest → PendingRequest
answered true fresh r = record r { status = accepted; session_token = some fresh }
answered false fresh r = record r { status = rejected }

abbrev pub respond_found :
    Option PendingRequest → Bool → List ℕ → Server → Result RespondError Server
respond_found none accepts fresh s = err no_such_request
respond_found (some r) accepts fresh s =
    if is_pending r.status
    then ok (record s {
      pending_requests = insert_request (answered accepts fresh r) s.pending_requests;
    })
    else err already_answered

unfoldable pub respond_to_request : List ℕ → Bool → List ℕ → Server → Result RespondError Server
respond_to_request id accepts fresh s =
    respond_found (find_request id s.pending_requests) accepts fresh s

-- What an address gets back.
pub data Reply : Type 0 where
  granted : List ℕ → Reply
  is_waiting : Reply
  authenticated : Reply
  forbidden : Reply
  is_blocked : Reply

abbrev pub max_failed_attempts : ℕ
max_failed_attempts = 5

abbrev pub rate_limit_window : ℕ
rate_limit_window = 60 * 10 ^ 9

abbrev pub block_duration : ℕ
block_duration = 300 * 10 ^ 9

abbrev pub Attempts : Type 0
Attempts = List (ℕ × (ℕ × ℕ))

unfoldable pub get_attempts : ℕ → Attempts → Option (ℕ × ℕ)
get_attempts ip [] = none
get_attempts ip (a ∷ rest) =
    let later = get_attempts ip rest in if a.0 == ip then some a.1 else later

unfoldable pub remove_attempts : ℕ → Attempts → Attempts
remove_attempts ip [] = []
remove_attempts ip (a ∷ rest) =
    let later = remove_attempts ip rest in if a.0 == ip then later else a ∷ later

-- Blocked, or let through with what is still known of failures.
abbrev pub block_of : ℕ → ℕ → Option (ℕ × ℕ) → Attempts → Option Attempts
block_of now ip none failed = some failed
block_of now ip (some (count, last)) failed =
    if leb max_failed_attempts count
    then if ltb (now - last) block_duration then none else some (remove_attempts ip failed)
    else some failed

unfoldable pub check_block : ℕ → ℕ → Attempts → Option Attempts
check_block now ip failed = block_of now ip (get_attempts ip failed) failed

-- `entry(ip).or_insert((0, now))`, and one more failure.
abbrev pub failed_again : ℕ → Option (ℕ × ℕ) → ℕ × ℕ
failed_again now none = (1, now)
failed_again now (some (count, last)) =
    if ltb rate_limit_window (now - last) then (1, now) else ((count + 1) % 2 ^ 32, now)

unfoldable pub record_failure : ℕ → ℕ → Attempts → Attempts
record_failure now ip failed =
    (ip, failed_again now (get_attempts ip failed)) ∷ remove_attempts ip failed

abbrev pub is_valid : Option (List ℕ) → Server → Bool
is_valid none s = false
is_valid (some token) s = is_valid_token token s

abbrev pub is_some : Option (List ℕ) → Bool
is_some none = false
is_some (some x) = true

-- A connection, if its address is not blocked.
abbrev pub admitted : Option Attempts → Server → (Server → Server × Reply) → Server × Reply
admitted none s serve = (s, is_blocked)
admitted (some failed) s serve = serve (record s { failed_attempts = failed })

-- GET /auth, and the check in front of POST /upload.
abbrev pub check_auth : ℕ → ℕ → Option (List ℕ) → Server → Server × Reply
check_auth now ip token s =
    if is_valid token s
    then (s, authenticated)
    else (record s { failed_attempts = record_failure now ip s.failed_attempts }, forbidden)

unfoldable pub auth : ℕ → ℕ → Option (List ℕ) → Server → Server × Reply
auth now ip token s = admitted (check_block now ip s.failed_attempts) s (check_auth now ip token)

-- POST /api/request; `id` and `fresh` are the two tokens that are made.
abbrev pub ask : ℕ → ℕ → List ℕ → List ℕ → Option (List ℕ) → Server → Server × Reply
ask seconds ip id fresh token s =
    if is_valid token s
    then (
      record s {
        pending_requests =
            insert_request
              (record {
                session_id = id;
                ip = ip;
                timestamp = seconds;
                status = accepted;
                session_token = some fresh;
              })
              s.pending_requests;
      },
      granted fresh,
    )
    else if not s.auto_accept && not (is_some s.pin)
    then (
      record s {
        pending_requests =
            insert_request
              (record {
                session_id = id;
                ip = ip;
                timestamp = seconds;
                status = pending;
                session_token = none;
              })
              s.pending_requests;
      },
      is_waiting,
    )
    else (s, forbidden)

unfoldable pub api_request : ℕ → ℕ → ℕ → List ℕ → List ℕ → Option (List ℕ) → Server → Server × Reply
api_request now seconds ip id fresh token s =
    admitted (check_block now ip s.failed_attempts) s (ask seconds ip id fresh token)
