-- ===== src/Tests/Access.antt =====
-- The approval gate and the limit on guesses of the web server on fixed inputs.
use nxfr.Prelude.{
  ◌⊎◌, All, true, false, none, List, [], ◌∷◌, ◌≡◌, refl, some, arith, codes, list_eq,
}
use nxfr.Web.Gate.{
  Server, is_valid_token, is_blocked, get_attempts, check_block, respond_to_request, find_request,
  api_request, auth,
}
use nxfr.Web.Granted.{
  Event, asks, answers, tries, run, IsHarmless, shows_nothing, refuses, tries_any, no_way_in,
}
use nxfr.Web.Blocked.{Tries, tries_of, AllWrong, five_tries_block}

abbrev server : Server
server = record {
  token = codes "main";
  pin = some (codes "1234");
  auto_accept = false;
  failed_attempts = [];
  pending_requests = [];
}

-- A request without a token, a refusal, and a login with the PIN.
abbrev events : List Event
events =
    asks 0 0 7 (codes "s1") (codes "t1") none
    ∷ answers (codes "s1") false (codes "t2")
    ∷ tries 5 7 (some (codes "1234"))
    ∷ []

harmless : All (IsHarmless server.token server.pin) events
harmless = (
  shows_nothing 0 0 7 (codes "s1") (codes "t1"),
  (refuses (codes "s1") (codes "t2"), (tries_any 5 7 (some (codes "1234")), tt)),
)

pin_valid : is_valid_token (codes "1234") (run events server) ≡ true
unfolding is_valid_token run list_eq auth check_block get_attempts respond_to_request find_request
    api_request
pin_valid = refl

no_way_in_example : (codes "main" ≡ codes "1234") ⊎ (some (codes "1234") ≡ some (codes "1234"))
no_way_in_example = no_way_in events server (codes "1234") tt harmless pin_valid

abbrev guesses : Tries
guesses = (10, some (codes "1")) ∷ (20, some (codes "2")) ∷ (30, none) ∷ (40, some (codes "3")) ∷ []

all_wrong : AllWrong server ((0, none) ∷ guesses)
unfolding is_valid_token list_eq
all_wrong = (refl, (refl, (refl, (refl, (refl, tt)))))

abbrev guessed : Server
guessed = tries_of 7 ((0, none) ∷ guesses) server

five_tries_block_example : auth 50 7 (some (codes "1234")) guessed ≡ (guessed, is_blocked)
unfolding get_attempts
five_tries_block_example =
    five_tries_block 7 (0, none) guesses server 50 (some (codes "1234")) refl refl
      (
        omega arith,
        omega arith,
        (omega arith, omega arith, (omega arith, omega arith, (omega arith, omega arith, tt))),
      )
      all_wrong (omega arith)
