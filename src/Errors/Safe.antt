-- ===== src/Errors/Safe.antt =====
-- What SafeMsg tells a client of an error.
use koala_v.Prelude.{
  Text, List, [], ◌∷◌, ◌++◌, Option, none, some, ◌≡◌, refl, sym, ◌∙◌, ap, arith, ◌⊎◌, inl, inr,
}
use koala_v.Errors.{
  GoError, Pointer, GoErrors, nil_error, internal_error, plain, wrapping, joining, nil_pointer,
  pointer, end, also, safe_message, error_text, error, unwrap, wrap, wrapped_with, as_internal,
  as_first, message_or, is_nil, safe_msg,
}

-- An error with its internal texts, and those of the errors that it wraps, taken out; and with it the
-- texts of the errors of other packages.
unfoldable mutual
  pub redact : GoError → GoError
  redact nil_error = nil_error
  redact (internal_error p) = internal_error (redact_pointer p)
  redact (plain text) = plain []
  redact (wrapping text e) = wrapping [] (redact e)
  redact (joining text es) = joining [] (redact_all es)

  redact_pointer : Pointer → Pointer
  redact_pointer nil_pointer = nil_pointer
  redact_pointer (pointer internal external wrapped) = pointer [] external (redact wrapped)

  redact_all : GoErrors → GoErrors
  redact_all end = end
  redact_all (also e es) = also (redact e) (redact_all es)

abbrev redact_found : Option Pointer → Option Pointer
redact_found none = none
redact_found (some p) = some (redact_pointer p)

abbrev or_else : Option Pointer → Option Pointer → Option Pointer
or_else none o = o
or_else (some p) o = some p

as_first-also :
    (e : GoError) (es : GoErrors) → as_first (also e es) ≡ or_else (as_internal e) (as_first es)
unfolding as_internal
as_first-also e es = ground arith

redact_found-or_else :
    (a b : Option Pointer) → redact_found (or_else a b) ≡ or_else (redact_found a) (redact_found b)
redact_found-or_else none b = refl
redact_found-or_else (some p) b = refl

mutual
  unfolding redact as_internal

  as_internal-redact : (e : GoError) → as_internal (redact e) ≡ redact_found (as_internal e)
  as_internal-redact nil_error = refl
  as_internal-redact (internal_error p) = refl
  as_internal-redact (plain text) = refl
  as_internal-redact (wrapping text e) = as_internal-redact e
  as_internal-redact (joining text es) = as_first-redact es

  as_first-redact : (es : GoErrors) → as_first (redact_all es) ≡ redact_found (as_first es)
  as_first-redact end = refl
  as_first-redact (also e es) = ground (arith, as_internal-redact e, as_first-redact es)

safe_message-redact : (p : Pointer) → safe_message (redact_pointer p) ≡ safe_message p
unfolding redact safe_message
safe_message-redact nil_pointer = refl
safe_message-redact (pointer internal external wrapped) = refl

message_or-redact : (d : Text) (o : Option Pointer) → message_or d (redact_found o) ≡ message_or d o
message_or-redact d none = refl
message_or-redact d (some p) = safe_message-redact p

is_nil-redact : (e : GoError) → is_nil (redact e) ≡ is_nil e
unfolding redact
is_nil-redact nil_error = refl
is_nil-redact (internal_error p) = refl
is_nil-redact (plain text) = refl
is_nil-redact (wrapping text e) = refl
is_nil-redact (joining text es) = refl

safe_msg-redact : (e : GoError) (d : Text) → safe_msg (redact e) d ≡ safe_msg e d
unfolding safe_msg
safe_msg-redact e d =
    rw (is_nil-redact e, as_internal-redact e, message_or-redact d (as_internal e))

-- SafeMsg tells nothing of internal texts: two errors that are the same up to the internal texts of
-- InternalErrors and the texts of the errors of other packages, at any depth, get the same message.
pub safe_msg-eq_of_redact :
    (e e' : GoError) (d : Text) → redact e ≡ redact e' → safe_msg e d ≡ safe_msg e' d
safe_msg-eq_of_redact e e' d h =
    sym (safe_msg-redact e d) ∙ ap (λ x. safe_msg x d) h ∙ safe_msg-redact e' d

-- An error that other packages wrap, one text after the other.
abbrev pub through : List Text → GoError → GoError
through [] e = e
through (text ∷ texts) e = wrapping text (through texts e)

safe_msg-through :
    (texts : List Text) (p : Pointer) (d : Text)
    → safe_msg (through texts (internal_error p)) d ≡ safe_message p
unfolding safe_msg as_internal
safe_msg-through [] p d = refl
safe_msg-through (text ∷ []) p d = refl
safe_msg-through (text ∷ t ∷ texts) p d = safe_msg-through (t ∷ texts) p d

-- What Wrap has kept of an error, and what a client is told of it, also when it is wrapped again.
abbrev pub Kept : GoError → Text → List Text → Text → Pointer → Type 0
Kept e message texts d p =
    (safe_msg (through texts (internal_error p)) d ≡ some message)
    × (error p ≡ error_text e)
    × (unwrap p ≡ some e)

wrapped_with-Kept :
    (e : GoError) (o : Option Text) (message d : Text) (texts : List Text) (p : Pointer)
    → error_text e ≡ o
    → wrapped_with e message o ≡ some p
    → Kept e message texts d p
unfolding error unwrap safe_message
wrapped_with-Kept e none message d texts p t h = absurd (ground (arith, h))
wrapped_with-Kept e (some text) message d texts nil_pointer t h = absurd (ground (arith, h))
wrapped_with-Kept e (some text) message d texts (pointer i x w) t h = (
  safe_msg-through texts (pointer i x w) d ∙ ground (arith, h),
  ground (arith, h, t),
  ground (arith, h),
)

-- What Wrap makes of an error keeps its text and the error itself, and SafeMsg answers it, also when
-- it is wrapped by other packages, with the message that Wrap was given. But a nil error gives a nil
-- pointer, and SafeMsg panics on that as an error, where it answers nil with its default.
wrap-Kept :
    (e : GoError) (message d : Text) (texts : List Text) (p : Pointer)
    → wrap e message ≡ some p
    → ((e ≡ nil_error)
        × (safe_msg (through texts (internal_error p)) d ≡ none)
        × (safe_msg e d ≡ some d))
      ⊎ Kept e message texts d p
unfolding wrap safe_message safe_msg
wrap-Kept nil_error message d texts nil_pointer h =
    inl (refl, safe_msg-through texts nil_pointer d, refl)
wrap-Kept nil_error message d texts (pointer i x w) h = absurd (ground (arith, h))
wrap-Kept (internal_error q) message d texts p h =
    inr (wrapped_with-Kept (internal_error q) _ message d texts p refl h)
wrap-Kept (plain t) message d texts p h =
    inr (wrapped_with-Kept (plain t) _ message d texts p refl h)
wrap-Kept (wrapping t e) message d texts p h =
    inr (wrapped_with-Kept (wrapping t e) _ message d texts p refl h)
wrap-Kept (joining t es) message d texts p h =
    inr (wrapped_with-Kept (joining t es) _ message d texts p refl h)

-- All InternalErrors of an error, from the outside to the inside and from left to right.
unfoldable mutual
  internals : GoError → List Pointer
  internals nil_error = []
  internals (internal_error p) = p ∷ wrapped_internals p
  internals (plain text) = []
  internals (wrapping text e) = internals e
  internals (joining text es) = all_internals es

  wrapped_internals : Pointer → List Pointer
  wrapped_internals nil_pointer = []
  wrapped_internals (pointer internal external wrapped) = internals wrapped

  all_internals : GoErrors → List Pointer
  all_internals end = []
  all_internals (also e es) = internals e ++ all_internals es

abbrev first : List Pointer → Option Pointer
first [] = none
first (p ∷ ps) = some p

first-append : (ps qs : List Pointer) → first (ps ++ qs) ≡ or_else (first ps) (first qs)
first-append [] qs = refl
first-append (p ∷ ps) qs = refl

mutual
  unfolding internals as_internal

  as_internal-first : (e : GoError) → as_internal e ≡ first (internals e)
  as_internal-first nil_error = refl
  as_internal-first (internal_error p) = refl
  as_internal-first (plain text) = refl
  as_internal-first (wrapping text e) = as_internal-first e
  as_internal-first (joining text es) = as_first-first es

  as_first-first : (es : GoErrors) → as_first es ≡ first (all_internals es)
  as_first-first end = refl
  as_first-first (also e es) =
      ground (
        arith,
        as_internal-first e,
        as_first-first es,
        first-append (internals e) (all_internals es),
      )

-- The message of the outermost, or else the default.
abbrev outermost : Text → List Pointer → Option Text
outermost d [] = some d
outermost d (p ∷ ps) = safe_message p

message_or-first : (d : Text) (ps : List Pointer) → message_or d (first ps) ≡ outermost d ps
message_or-first d [] = refl
message_or-first d (p ∷ ps) = refl

-- SafeMsg answers with the safe message of the outermost InternalError, the leftmost if errors are
-- joined, and with the default if there is none at any depth.
safe_msg-outermost : (e : GoError) (d : Text) → safe_msg e d ≡ outermost d (internals e)
unfolding safe_msg internals
safe_msg-outermost nil_error d = refl
safe_msg-outermost (internal_error p) d = refl
safe_msg-outermost (plain t) d = refl
safe_msg-outermost (wrapping t e) d =
    ap (message_or d) (as_internal-first (wrapping t e))
    ∙ message_or-first d (internals (wrapping t e))
safe_msg-outermost (joining t es) d =
    ap (message_or d) (as_internal-first (joining t es))
    ∙ message_or-first d (internals (joining t es))
