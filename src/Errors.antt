-- ===== src/Errors.antt =====
-- pkg/errors/errors.go: InternalError, and errors.As of the standard library for it. A panic is `none`.
pub mod Safe
use koala_v.Prelude.{Text, Bool, true, false, Option, none, some, if◌then◌else◌}

-- The values of the interface `error`: nil, a *InternalError, which may be a nil pointer, and the
-- errors of other packages, by the Unwrap that they have: none, one that returns an error, or one
-- that returns a list. Errors with an As of their own are left out.
mutual
  pub data GoError : Type 0 where
    nil_error : GoError
    internal_error : Pointer → GoError
    plain : Text → GoError
    wrapping : Text → GoError → GoError
    joining : Text → GoErrors → GoError

  -- *InternalError: nil, or the fields internal, external and wrapped.
  pub data Pointer : Type 0 where
    nil_pointer : Pointer
    pointer : Text → Text → GoError → Pointer

  pub data GoErrors : Type 0 where
    end : GoErrors
    also : GoError → GoErrors → GoErrors

abbrev pub new_internal : Text → Text → Pointer
new_internal internal external = pointer internal external nil_error

-- The three methods read a field: a nil pointer panics.
unfoldable pub error : Pointer → Option Text
error nil_pointer = none
error (pointer internal external wrapped) = some internal

unfoldable pub safe_message : Pointer → Option Text
safe_message nil_pointer = none
safe_message (pointer internal external wrapped) = some external

unfoldable pub unwrap : Pointer → Option GoError
unwrap nil_pointer = none
unwrap (pointer internal external wrapped) = some wrapped

-- `err.Error()`.
unfoldable pub error_text : GoError → Option Text
unfolding error
error_text nil_error = none
error_text (internal_error p) = error p
error_text (plain text) = some text
error_text (wrapping text e) = some text
error_text (joining text es) = some text

-- `Wrap(err, safeMessage)`: a nil error gives a nil pointer.
abbrev pub wrapped_with : GoError → Text → Option Text → Option Pointer
wrapped_with err external none = none
wrapped_with err external (some internal) = some (pointer internal external err)

unfoldable pub wrap : GoError → Text → Option Pointer
unfolding error_text
wrap nil_error message = some nil_pointer
wrap (internal_error p) message =
    wrapped_with (internal_error p) message (error_text (internal_error p))
wrap (plain text) message = wrapped_with (plain text) message (error_text (plain text))
wrap (wrapping text e) message =
    wrapped_with (wrapping text e) message (error_text (wrapping text e))
wrap (joining text es) message =
    wrapped_with (joining text es) message (error_text (joining text es))

-- `errors.As(err, &ie)`: the pointer that it stores, if it returns true.
unfoldable mutual
  pub as_internal : GoError → Option Pointer
  as_internal nil_error = none
  as_internal (internal_error p) = some p
  as_internal (plain text) = none
  as_internal (wrapping text e) = as_internal e
  as_internal (joining text es) = as_first es

  pub as_first : GoErrors → Option Pointer
  as_first end = none
  as_first (also e es) = elim (as_internal e) [ none ↦ as_first es | some p ↦ some p ]

abbrev pub message_or : Text → Option Pointer → Option Text
message_or default_msg none = some default_msg
message_or default_msg (some p) = safe_message p

abbrev pub is_nil : GoError → Bool
is_nil nil_error = true
is_nil _ = false

unfoldable pub safe_msg : GoError → Text → Option Text
unfolding as_internal safe_message
safe_msg err default_msg =
    if is_nil err then some default_msg else message_or default_msg (as_internal err)
