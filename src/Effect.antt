-- ===== src/Effect.antt =====
-- Go's errors and panics, and calls that change a world `S` outside the program: API servers and
-- cloud APIs. A call gives a result and the world that it leaves behind, also when it fails.
pub mod Ensures
pub mod Retry
pub mod Steps
pub mod Success
use cloud_network_config_con.Base.{
  String, List, Option, none, some, Bool, true, false, if◌then◌else◌,
}

-- What a remote API answers when it fails. `not_found` and `conflict` are the reasons that
-- `apierrors.IsNotFound` and `retry.RetryOnConflict` look for.
pub data ApiError : Type 0 where
  not_found conflict : ApiError
  failure : String → ApiError

-- `NoNetworkInterfaceError`, `AlreadyExistingIPError`, `NonExistingIPError`, `UnexpectedURIError`;
-- errors of `fmt.Errorf` by their format and operands, with no error among the operands (`errorf`),
-- with one printed by %v or %q (`errorf_of`) and with one wrapped by %w (`wrapf`); and the errors
-- that a remote API returns.
pub data GoError : Type 0 where
  no_network_interface already_existing_ip non_existing_ip : GoError
  unexpected_uri : String → GoError
  errorf : String → List String → GoError
  errorf_of wrapf : String → List String → GoError → GoError
  api : ApiError → GoError

-- `errors.Is(err, NonExistingIPError)`: only what %w wraps is looked through.
abbrev pub is_non_existing_ip : GoError → Bool
is_non_existing_ip non_existing_ip = true
is_non_existing_ip (wrapf _ _ e) = is_non_existing_ip e
is_non_existing_ip _ = false

-- `errors.Is(err, AlreadyExistingIPError)`
abbrev pub is_already_existing_ip : GoError → Bool
is_already_existing_ip already_existing_ip = true
is_already_existing_ip (wrapf _ _ e) = is_already_existing_ip e
is_already_existing_ip _ = false

-- `panic` is a nil dereference or an index out of range, which ends the process.
pub data Result (A : Type 0) : Type 0 where
  ok : A → Result A
  err : GoError → Result A
  panic : Result A

abbrev pub M : Type 0 → Type 0 → Type 0
M S A = S → Result A × S

module _ {S A B : Type 0} where
  abbrev pub continue : (A → M S B) → Result A × S → Result B × S
  continue f (ok a, s) = f a s
  continue f (err e, s) = (err e, s)
  continue f (panic, s) = (panic, s)

infixl 5 ◌>>=◌ ◌>>◌
abbrev pub ◌>>=◌ : {S A B : Type 0} → M S A → (A → M S B) → M S B
◌>>=◌ m f s = continue f (m s)

abbrev pub ◌>>◌ : {S A B : Type 0} → M S A → M S B → M S B
m >> k = m >>= λ _. k

module _ {S A : Type 0} where
  abbrev pub pure : A → M S A
  pure a s = (ok a, s)

  abbrev pub raise : GoError → M S A
  raise e s = (err e, s)

  abbrev pub crash : M S A
  crash s = (panic, s)

  -- A pure computation that may fail.
  abbrev pub lift : Result A → M S A
  lift r s = (r, s)

  abbrev pub gets : (S → A) → M S A
  gets f s = (ok (f s), s)

  -- A pointer that is dereferenced, or an element that is taken.
  abbrev pub deref : Option A → M S A
  deref none = crash
  deref (some a) = pure a

  abbrev pub recast : (GoError → GoError) → Result A × S → Result A × S
  recast f (ok a, s) = (ok a, s)
  recast f (err e, s) = (err (f e), s)
  recast f (panic, s) = (panic, s)

  -- `if err != nil { return fmt.Errorf(…, err) }`
  abbrev pub on_error : M S A → (GoError → GoError) → M S A
  on_error m f s = recast f (m s)

  abbrev pub caught : Result A × S → Result (Option GoError) × S
  caught (ok _, s) = (ok none, s)
  caught (err e, s) = (ok (some e), s)
  caught (panic, s) = (panic, s)

  -- The error of a call as a value, as in `err := f()`.
  abbrev pub attempt : M S A → M S (Option GoError)
  attempt m s = caught (m s)

module _ {S A : Type 0} where
  abbrev pub answered : Result A × S → Result (Option A) × S
  answered (ok a, s) = (ok (some a), s)
  answered (err _, s) = (ok none, s)
  answered (panic, s) = (panic, s)

  -- The value of a call whose error is only looked at, logged and forgotten.
  abbrev pub optional : M S A → M S (Option A)
  optional m s = answered (m s)

-- `err != nil && !errors.Is(err, E)`: the error that is left when `E` is tolerated.
abbrev pub unless : (GoError → Bool) → Option GoError → Option GoError
unless tolerated none = none
unless tolerated (some e) = if tolerated e then none else some e
