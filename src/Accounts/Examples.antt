-- ===== src/Accounts/Examples.antt =====
-- The theorems about users at concrete rows, over a table in memory.
use Prim.Native.Char.{nul}
use Prim.Native.String.{[], ◌∷◌}
use exchange_backend.Base.{
  ℕ, zero, suc, String, ◌≡◌, refl, sym, ap, ◌∙◌, true, none, some, List, str_eq, eq_refl, inl,
}
use exchange_backend.Base.Action.{ok, ◌>>=◌}
use exchange_backend.Base.Distinct.{Among}
use exchange_backend.Repository.{IsReliable}
use exchange_backend.Repository.Memory.{memory_repository, memory_repository-IsLawful, always}
use exchange_backend.Custody.Entity.{active, no}
use exchange_backend.Accounts.Entity.{User, SignUpDto, Authenticated, user_key, user_keyed}
use exchange_backend.Accounts.World.{AccountsEnv, Accounts, IsHashing, IsLawfulUsers, user_rows}
use exchange_backend.Accounts.Database.{find_one, update_user_by_id, set_current_refresh_token}
use exchange_backend.Accounts.Service.{SignedIn, sign_in, admit}
use exchange_backend.Accounts.Controller.{
  Reply, register, change_password, turn_on, verify_two_fa_code, otp_reply,
}
use exchange_backend.Accounts.Requests.{
  Request, registering, logging_in, changing_email, logging_out, serve_all,
}
use exchange_backend.Accounts.Invariant.{IsWellFormed, IsUnique}
use exchange_backend.Accounts.Uniqueness.{serve_all-IsWellFormed}
use exchange_backend.Accounts.Emails.{different}
use exchange_backend.Accounts.Credentials.{sign_in_sound}
use exchange_backend.Accounts.Registration.{register-sign_in}
use exchange_backend.Accounts.Passwords.{change_password-sign_in}
use exchange_backend.Accounts.TwoFactor.{turn_on-verify_two_fa_code}

-- A text of n characters, and their number.
numeral : ℕ → String
numeral zero = []
numeral (suc n) = nul ∷ numeral n

characters : String → ℕ
characters [] = zero
characters (c ∷ s) = suc (characters s)

characters-numeral : (n : ℕ) → characters (numeral n) ≡ n
unfolding numeral characters
characters-numeral zero = refl
characters-numeral (suc n) = ap suc (characters-numeral n)

abbrev env : AccountsEnv
env = record {
  users = memory_repository always user_key user_keyed;
  clock = λ n. n;
  uuidv4 = numeral;
  gen_salt = λ n. "salt";
  hash = λ password salt. password;
  compare = str_eq;
  sign = λ payload secret expiration time. "token";
  verify = λ token secret time. some true;
  callback = record { sub = none; uuid = none };
}

lawful : IsLawfulUsers env
lawful = memory_repository-IsLawful always user_key user_keyed (λ n time u. refl)

users-IsReliable : IsReliable env.users
users-IsReliable = record {
  finds = λ o s. (_, refl);
  saves = λ r s. (_, refl);
  updates = λ c f s. refl;
}

hashing : IsHashing env
hashing = record { compare-hash = λ password salt. eq_refl password }

env-IsUnique : IsUnique env
env-IsUnique m n e = sym (characters-numeral m) ∙ ap characters e ∙ characters-numeral n

abbrev ann : User
ann = record {
  id = 1;
  email = "ann@mail";
  name = "Ann";
  uuid = "first";
  referral_id = none;
  password = "secret";
  zasper_id = "secret";
  phone_number = some "1";
  refresh_token = none;
  twofa_secret = none;
  status = active;
  email_verified = no;
  is_two_fa_enabled = no;
  id_verified = no;
  spot_wallet = 0;
  fund_wallet = 0;
  ip_address = none;
  logged_in_at = none;
  created_at = 0;
}

abbrev empty : Accounts env
empty = record { users = record { stored = List.[]; outcomes = List.[] }; ticks = 0 }

abbrev table : Accounts env
table = record { users = record { stored = List.◌∷◌ ann List.[]; outcomes = List.[] }; ticks = 0 }

abbrev signed_as_ann : Authenticated
signed_as_ann = record { user_id = some 1; uuid = some "first" }

abbrev bob : SignUpDto
bob = record {
  name = "Bob";
  email = "bob@mail";
  password = "word";
  referral_id = none;
  phone_number = some "2";
}

abbrev requests : List Request
requests = List.◌∷◌ (registering bob) (
    List.◌∷◌ (logging_in "bob@mail" "word") (
      List.◌∷◌ (changing_email (some "ann@mail") signed_as_ann)
        (List.◌∷◌ (logging_out signed_as_ann) List.[])))

empty-IsWellFormed : IsWellFormed env empty
empty-IsWellFormed = record { emails = tt; uuids = tt; fresh = λ n h. tt }

serve_all-IsWellFormed_example : IsWellFormed env (serve_all env requests empty)
serve_all-IsWellFormed_example =
    serve_all-IsWellFormed env lawful env-IsUnique requests empty
      (tt, (tt, (("first", refl), (tt, tt)))) empty-IsWellFormed

abbrev signed : SignedIn
signed = record { access_token = "token"; refresh_token = "token"; user = ann }

sign_in_sound_example :
    Among ann (user_rows env table)
    × (ann.email ≡ "ann@mail")
    × (env.compare "secret" ann.password ≡ true)
unfolding sign_in find_one admit update_user_by_id set_current_refresh_token ◌>>=◌
sign_in_sound_example = sign_in_sound env lawful "ann@mail" "secret" table signed refl

register-sign_in_example :
    ((reply : Reply) × ((register env bob table).0 ≡ ok reply) × (reply.success ≡ true))
    × ((s : SignedIn) × ((sign_in env "bob@mail" "word" (register env bob table).1).0 ≡ ok s)
        × (s.user.email ≡ "bob@mail"))
register-sign_in_example =
    register-sign_in env lawful users-IsReliable hashing bob table
      ((different "ann@mail" "bob@mail" refl, tt), (refl, tt))

change_password-sign_in_example :
    (s : SignedIn) × ((sign_in env "ann@mail" "new"
        (change_password env (some "new") signed_as_ann table).1).0
      ≡ ok s)
    × (s.user.email ≡ "ann@mail")
change_password-sign_in_example =
    change_password-sign_in env lawful users-IsReliable hashing ann "new" signed_as_ann table
      (tt, tt) (inl refl) refl

-- The requests above stand between.
turn_on-verify_two_fa_code_example :
    let b : Accounts env =
      serve_all env requests (turn_on env (some "key") (some "123") signed_as_ann table).1 in
    ((reply : Reply) × ((turn_on env (some "key") (some "123") signed_as_ann table).0 ≡ ok reply)
      × (reply.success ≡ true))
    × ((verify_two_fa_code env (some "456") signed_as_ann b).0 ≡ ok (otp_reply env true))
turn_on-verify_two_fa_code_example =
    turn_on-verify_two_fa_code env lawful users-IsReliable "key" 1 (some "123") (some "456") true
      signed_as_ann table requests refl (inl refl) refl (tt, (tt, (tt, (tt, tt)))) refl
