-- ===== src/Errors.antt =====
-- `AppError` of src/lib.rs, and the results of fallible code. A panic is a result of its own.
use open_ai_lb.Prelude.{ℕ, zero, suc, ◌/◌, ◌%◌, String, ◌&&◌, leb, ltb, eqb, if◌then◌else◌}
use Prim.Native.String

pub record AppError : Type 0 where
  pub status : ℕ
  pub message : String

abbrev pub bad_request : String → AppError
bad_request message = record { status = 400; message = message }

abbrev pub unauthorized : String → AppError
unauthorized message = record { status = 401; message = message }

abbrev pub forbidden : String → AppError
forbidden message = record { status = 403; message = message }

abbrev pub not_found : String → AppError
not_found message = record { status = 404; message = message }

abbrev pub unavailable : String → AppError
unavailable message = record { status = 503; message = message }

abbrev pub internal : String → AppError
internal message = record { status = 500; message = message }

-- `StatusCode::from_u16` takes 100 to 999; any other status becomes 502.
abbrev pub upstream : ℕ → String → AppError
upstream status message = record {
  status = if leb 100 status && ltb status 1000 then status else 502;
  message = message;
}

pub data Result {ℓ} (A : Type ℓ) : Type ℓ where
  ok : A → Result A
  err : AppError → Result A
  panic : Result A

infixl 5 ◌>>=◌ ◌>>◌
abbrev pub ◌>>=◌ {ℓ κ} : {A : Type ℓ} {B : Type κ} → Result A → (A → Result B) → Result B
ok a >>= f = f a
err e >>= f = err e
panic >>= f = panic

abbrev pub ◌>>◌ {ℓ} : {B : Type ℓ} → Result (Unit {0}) → Result B → Result B
m >> k = m >>= λ _. k

-- `format!("{}")` of a number that has at most as many digits as the fuel.
digit_text : ℕ → String
digit_text d =
    if eqb d 0
    then "0"
    else if eqb d 1
    then "1"
    else if eqb d 2
    then "2"
    else if eqb d 3
    then "3"
    else if eqb d 4
    then "4"
    else if eqb d 5
    then "5"
    else if eqb d 6
    then "6"
    else if eqb d 7
    then "7"
    else if eqb d 8
    then "8"
    else "9"

display_from : ℕ → ℕ → String → String
display_from zero n rest = rest
display_from (suc fuel) n rest =
    let more = display_from fuel (n / 10) (String.◌++◌ (digit_text (n % 10)) rest) in
    if eqb (n / 10) 0 then String.◌++◌ (digit_text (n % 10)) rest else more

-- A `u16` has at most five digits.
unfoldable pub display_u16 : ℕ → String
unfolding display_from digit_text
display_u16 n = display_from 5 n ""
